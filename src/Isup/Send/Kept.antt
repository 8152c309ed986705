-- ===== src/Isup/Send/Kept.antt =====
-- The timers of a call are those that it had before a message is built from it.
use libss.Base.{
  ℕ, zero, suc, ◌+◌, ◌-◌, ◌≡◌, refl, ◌∙◌, Bool, true, false, Option, none, some, List, [], ◌∷◌,
  if◌then◌else◌, ◌==◌, ltb, ◌||◌,
}
use libss.Base.Int.{ℤ, to_ℕ}
use libss.Isup.Bytes.{Mem, store}
use libss.Isup.Call.{Call, Ss7, Written}
use libss.Isup.Parms.{
  Result, overrun, refused, ok, ◌>>=◌, ParmType, fixed, variable, optional, do_parm_tx,
}
use libss.Isup.Parms.Kept.{written_timer, do_parm_tx_timer}
use libss.Isup.Messages.{MessageData, message_of}
use libss.Isup.Send.{
  Building, Outgoing, add_parm, add_fixed, add_variable, add_optional, end_optional, add_parms,
  send_as, isup_send_message,
}

-- What holds of the value, where there is one.
abbrev pub Holds {ℓ} : {A : Type ℓ} → (A → Type 0) → Result A → Type 0
Holds p overrun = Unit {0}
Holds p refused = Unit {0}
Holds p (ok a) = p a

pub Holds-bind :
    {A B : Type 0} (p : A → Type 0) (q : B → Type 0) (r : Result A) (f : A → Result B)
    → Holds p r
    → ((a : A) → p a → Holds q (f a))
    → Holds q (r >>= f)
Holds-bind p q overrun f h k = tt
Holds-bind p q refused f h k = tt
Holds-bind p q (ok a) f h k = k a h

module _ (ids : List ℤ) where
  Kept : Building → Type 0
  Kept b = b.call.timer ≡ ids

  First : {A : Type 0} → Building × A → Type 0
  First r = r.0.call.timer ≡ ids

  written_Holds :
      (r : Result Written) (c : Call)
      → c.timer ≡ ids
      → written_timer c.timer r ≡ c.timer
      → Holds (λ w. w.call.timer ≡ ids) r
  written_Holds overrun c e h = tt
  written_Holds refused c e h = tt
  written_Holds (ok w) c e h = h ∙ e

  add_parm-First :
      (ss7 : Ss7) (message start : ℕ) (k : ParmType) (parm : ℕ) (b : Building)
      → Kept b
      → Holds First (add_parm ss7 message start k parm b)
  unfolding add_parm Kept First
  add_parm-First ss7 message start k parm b h =
      Holds-bind (λ w. w.call.timer ≡ ids) First
        (do_parm_tx ss7 b.call message parm b.buf (start + b.offset) (to_ℕ b.len) k) _
        (written_Holds _ b.call h
          (do_parm_tx_timer k ss7 b.call message parm b.buf (start + b.offset) (to_ℕ b.len)))
        (λ w e. e)

  add_fixed-First :
      (ss7 : Ss7) (message start n : ℕ) (parms : List ℕ) (b : Building)
      → Kept b
      → Holds First (add_fixed ss7 message start n parms b)
  unfolding add_fixed Kept First
  add_fixed-First ss7 message start zero parms b h = h
  add_fixed-First ss7 message start (suc n) [] b h = tt
  add_fixed-First ss7 message start (suc n) (parm ∷ parms) b h =
      Holds-bind First First (add_parm ss7 message start fixed parm b) _
        (add_parm-First ss7 message start fixed parm b h)
        (λ r e. add_fixed-First ss7 message start n parms (r.0) e)

  add_variable-First :
      (ss7 : Ss7) (message start var n : ℕ) (parms : List ℕ) (b : Building)
      → Kept b
      → Holds First (add_variable ss7 message start var n parms b)
  unfolding add_variable Kept First
  add_variable-First ss7 message start var zero parms b h = h
  add_variable-First ss7 message start var (suc n) [] b h = tt
  add_variable-First ss7 message start var (suc n) (parm ∷ parms) b h =
      let b' = record b { buf = store b.buf (start + var) (b.offset - var) } in
      Holds-bind First First (add_parm ss7 message start variable parm b') _
        (add_parm-First ss7 message start variable parm b' h)
        (λ r e. add_variable-First ss7 message start (var + 1) n parms (r.0) e)

  add_optional-First :
      (ss7 : Ss7) (message start : ℕ) (parms : List ℕ) (added : Bool) (b : Building)
      → Kept b
      → Holds First (add_optional ss7 message start parms added b)
  unfolding add_optional Kept First
  add_optional-First ss7 message start [] added b h = h
  add_optional-First ss7 message start (parm ∷ parms) added b h =
      Holds-bind First First (add_parm ss7 message start optional parm b) _
        (add_parm-First ss7 message start optional parm b h)
        (λ r e. add_optional-First ss7 message start parms (added || ltb 0 (r.1)) (r.0) e)

  end_optional-Kept :
      (start at begins : ℕ) (t : Building × Bool) → First t → Kept (end_optional start at begins t)
  unfolding end_optional Kept First
  end_optional-Kept start at begins (b, true) h = h
  end_optional-Kept start at begins (b, false) h = h

  optional-Kept :
      (none_left : Bool) (b : Building) (r : Result (Building × Bool)) (start at begins : ℕ)
      → Kept b
      → Holds First r
      → Holds Kept (if none_left then ok b else (r >>= λ t. ok (end_optional start at begins t)))
  optional-Kept true b r start at begins h k = h
  optional-Kept false b r start at begins h k =
      Holds-bind First Kept r _ k (λ t e. end_optional-Kept start at begins t e)

  add_parms-Kept :
      (ss7 : Ss7) (start : ℕ) (x : MessageData) (parms : List ℕ) (b : Building)
      → Kept b
      → Holds Kept (add_parms ss7 start x parms b)
  unfolding add_parms Kept First
  add_parms-Kept ss7 start x parms b h =
      Holds-bind First Kept (add_fixed ss7 x.messagetype start x.mand_fixed_params parms b) _
        (add_fixed-First ss7 x.messagetype start x.mand_fixed_params parms b h)
        (λ r e.
          Holds-bind First Kept _ _
            (add_variable-First ss7 x.messagetype start (r.0.offset) x.mand_var_params (r.1) _ e)
            (λ s e'.
              optional-Kept (x.opt_params == 0) (s.0) _ start _ _ e'
                (add_optional-First ss7 x.messagetype start (s.1) false (s.0) e')))

module _ (ss7 : Ss7) (c : Call) (messagetype : ℕ) (parms : List ℕ) where
  SameTimers : Outgoing → Type 0
  SameTimers out = out.call.timer ≡ c.timer

  send_as-SameTimers :
      (m : Mem) (room : ℕ) (x : Option MessageData)
      → Holds SameTimers (send_as ss7 c messagetype parms m room x)
  unfolding SameTimers Kept
  send_as-SameTimers m room none = tt
  send_as-SameTimers m room (some x) =
      Holds-bind (Kept c.timer) SameTimers _ _ (add_parms-Kept c.timer ss7 _ x parms _ refl)
        (λ b e. e)

  pub isup_send_message-timer :
      (m : Option Mem) (room : ℕ)
      → Holds (λ out. out.call.timer ≡ c.timer) (isup_send_message ss7 c messagetype parms m room)
  unfolding isup_send_message SameTimers
  isup_send_message-timer none room = tt
  isup_send_message-timer (some m) room =
      send_as-SameTimers m room (message_of ss7.switchtype messagetype)
