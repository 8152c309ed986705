-- ===== src/Isup/Receive/Kept.antt =====
-- The timers of a call are those that it had before a message is read into it.
use libss.Base.{
  ℕ, zero, suc, ◌+◌, ◌≡◌, refl, ◌∙◌, Bool, true, false, ◌||◌, ◌&&◌, not, Option, none, some, List,
  [], ◌∷◌, if◌then◌else◌, ◌==◌,
}
use libss.Base.Int.{ℤ, pos, eq_ℤ, is_positive, to_ℕ}
use libss.Isup.Bytes.{Mem}
use libss.Isup.Call.{Call, Ss7}
use libss.Isup.Parms.{Result, overrun, refused, ok, ParmType, fixed, variable, optional, do_parm_rx}
use libss.Isup.Parms.ReadKept.{read_timer, do_parm_rx_timer}
use libss.Isup.Messages.{MessageData, message_of, received_params}
use libss.Isup.Send.Kept.{Holds, Holds-bind}
use libss.Isup.Receive.{
  Reading, read_fixed, read_variable, after_option, read_option, go_on, read_optional,
  enter_optional, read_mandatory, read_message, isup_read,
}

-- The same where the loop may not have ended.
abbrev pub HoldsOf : (Call → Type 0) → Option (Result Call) → Type 0
HoldsOf p none = Unit {0}
HoldsOf p (some r) = Holds p r

HoldsOf-if :
    (p : Call → Type 0) (b : Bool) (x y : Option (Result Call))
    → HoldsOf p x
    → HoldsOf p y
    → HoldsOf p (if b then x else y)
HoldsOf-if p true x y h k = h
HoldsOf-if p false x y h k = k

Holds-if :
    (p : Reading → Type 0) (b : Bool) (x y : Result Reading)
    → Holds p x
    → Holds p y
    → Holds p (if b then x else y)
Holds-if p true x y h k = h
Holds-if p false x y h k = k

module _ (ids : List ℤ) where
  Same : Call → Type 0
  Same c = c.timer ≡ ids

  Kept : Reading → Type 0
  Kept r = r.call.timer ≡ ids

  First : Reading × List ℕ → Type 0
  First x = x.0.call.timer ≡ ids

  Read : Call × ℕ → Type 0
  Read x = x.0.timer ≡ ids

  read_timer-Read :
      (r : Result (Call × ℕ)) (c : Call)
      → c.timer ≡ ids
      → read_timer c.timer r ≡ c.timer
      → Holds Read r
  unfolding Read
  read_timer-Read overrun c e h = tt
  read_timer-Read refused c e h = tt
  read_timer-Read (ok x) c e h = h ∙ e

  do_parm_rx-Read :
      (k : ParmType) (ss7 : Ss7) (c : Call) (message parm : ℕ) (m : Mem) (p n : ℕ)
      → Same c
      → Holds Read (do_parm_rx ss7 c message parm m p n k)
  unfolding Same
  do_parm_rx-Read k ss7 c message parm m p n h =
      read_timer-Read _ c h (do_parm_rx_timer k ss7 c message parm m p n)

  read_fixed-First :
      (ss7 : Ss7) (m : Mem) (message n : ℕ) (parms : List ℕ) (r : Reading)
      → Kept r
      → Holds First (read_fixed ss7 m message n parms r)
  unfolding read_fixed Kept First Same Read
  read_fixed-First ss7 m message zero parms r h = h
  read_fixed-First ss7 m message (suc n) [] r h = tt
  read_fixed-First ss7 m message (suc n) (parm ∷ parms) r h =
      Holds-bind Read First (do_parm_rx ss7 r.call message parm m r.at (to_ℕ r.len) fixed) _
        (do_parm_rx-Read fixed ss7 r.call message parm m r.at (to_ℕ r.len) h)
        (λ x e. read_fixed-First ss7 m message n parms _ e)

  read_variable-Kept :
      (ss7 : Ss7) (m : Mem) (message n : ℕ) (parms : List ℕ) (r : Reading)
      → Kept r
      → Holds Kept (read_variable ss7 m message n parms r)
  unfolding read_variable Kept Same Read
  read_variable-Kept ss7 m message zero parms r h = h
  read_variable-Kept ss7 m message (suc n) [] r h =
      Holds-if Kept (eq_ℤ r.len (pos 0) || m r.at == 0) (ok r) refused h tt
  read_variable-Kept ss7 m message (suc n) (parm ∷ parms) r h =
      Holds-if Kept (eq_ℤ r.len (pos 0) || m r.at == 0) (ok r) _ h (
        Holds-bind Read Kept
          (do_parm_rx ss7 r.call message parm m (r.at + m r.at) (to_ℕ r.len) variable) _
          (do_parm_rx-Read variable ss7 r.call message parm m (r.at + m r.at) (to_ℕ r.len) h)
          (λ x e. read_variable-Kept ss7 m message n parms _ e))

  after_option-Kept :
      (r : Reading) (skip : ℕ) (x : Result (Call × ℕ))
      → Kept r
      → Holds Read x
      → Holds Kept (after_option r skip x)
  unfolding Kept Read
  after_option-Kept r skip overrun h k = tt
  after_option-Kept r skip refused h k = h
  after_option-Kept r skip (ok x) h k = k

  read_option-Kept :
      (ss7 : Ss7) (m : Mem) (message : ℕ) (r : Reading)
      → Kept r
      → Holds Kept (read_option ss7 m message r)
  unfolding read_option Kept Same
  read_option-Kept ss7 m message r h =
      after_option-Kept r _ _ h
        (do_parm_rx-Read optional ss7 r.call message (m r.at) m r.at (to_ℕ r.len) h)

  go_on-Same :
      (next : Reading → Option (Result Call)) (r : Result Reading)
      → ((x : Reading) → Kept x → HoldsOf Same (next x))
      → Holds Kept r
      → HoldsOf Same (go_on next r)
  go_on-Same next overrun h k = tt
  go_on-Same next refused h k = tt
  go_on-Same next (ok r) h k = h r k

  read_optional-Same :
      (ss7 : Ss7) (m : Mem) (message n : ℕ) (r : Reading)
      → Kept r
      → HoldsOf Same (read_optional ss7 m message n r)
  unfolding read_optional Kept Same
  read_optional-Same ss7 m message zero r h =
      HoldsOf-if Same (not (is_positive r.len) || m r.at == 0) (some (ok r.call)) none h tt
  read_optional-Same ss7 m message (suc n) r h =
      HoldsOf-if Same (not (is_positive r.len) || m r.at == 0) (some (ok r.call)) _ h (
        go_on-Same (read_optional ss7 m message n) (read_option ss7 m message r)
          (λ x k. read_optional-Same ss7 m message n x k) (read_option-Kept ss7 m message r h))

  enter_optional-Same :
      (ss7 : Ss7) (m : Mem) (x : MessageData) (r : Reading)
      → Kept r
      → HoldsOf Same (enter_optional ss7 m x r)
  unfolding enter_optional Kept Same
  enter_optional-Same ss7 m x r h =
      HoldsOf-if Same (not (x.opt_params == 0) && is_positive r.len && not (m r.at == 0)) _
        (some (ok r.call)) (read_optional-Same ss7 m x.messagetype (to_ℕ r.len) _ h) h

  read_mandatory-Kept :
      (ss7 : Ss7) (m : Mem) (x : MessageData) (r : Reading)
      → Kept r
      → Holds Kept (read_mandatory ss7 m x r)
  unfolding read_mandatory Kept First
  read_mandatory-Kept ss7 m x r h =
      Holds-bind First Kept _ _
        (read_fixed-First ss7 m x.messagetype x.mand_fixed_params (received_params ss7.switchtype x)
          r h)
        (λ f e.
          Holds-if Kept (is_positive (f.0.len)) _ (ok (f.0))
            (read_variable-Kept ss7 m x.messagetype x.mand_var_params (f.1) (f.0) e) e)

-- What isup_read reads is a call with the same timers.
pub isup_read-timer :
    (ss7 : Ss7) (c : Call) (m : Mem) (at len : ℕ)
    → HoldsOf (λ d. d.timer ≡ c.timer) (isup_read ss7 c m at len)
unfolding isup_read Same Kept
isup_read-timer ss7 c m at len = by_message (message_of ss7.switchtype (m (at + 2)))
  where
    by_message :
        (x : Option MessageData) → HoldsOf (λ d. d.timer ≡ c.timer) (read_message ss7 c m at len x)
    by_message none = tt
    by_message (some x) =
        go_on-Same c.timer (enter_optional ss7 m x) _ (enter_optional-Same c.timer ss7 m x)
          (read_mandatory-Kept c.timer ss7 m x _ refl)
