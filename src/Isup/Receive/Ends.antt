-- ===== src/Isup/Receive/Ends.antt =====
-- The loop over the optional parameters, on the bytes that are left.
use libss.Base.{
  ℕ, zero, suc, ◌+◌, ◌≤◌, ◌<◌, ◌≡◌, refl, inl, inr, Bool, true, false, ◌||◌, ◌&&◌, not, Option,
  none, some, arith, ◌==◌, Bool-cases, ◌-◌,
}
use libss.Base.Int.{ℤ, pos, negsuc, is_positive, minus, to_ℕ}
use libss.Isup.Bytes.{Mem}
use libss.Isup.Call.{Call, Ss7}
use libss.Isup.Messages.{MessageData, message_of}
use libss.Isup.Parms.{
  Result, overrun, refused, ok, Receive, receive_by, receive_of, parms, do_parm_rx,
}
use libss.Isup.Receive.{
  go_on, read_message, Reading, read_option, read_optional, enter_optional, isup_read,
}

-- The loop ends with a result.
abbrev pub Ends : Option (Result Call) → Type 0
Ends o = (r : Result Call) × (o ≡ some r)

to_ℕ-minus : (x : ℤ) (n : ℕ) → to_ℕ (minus x n) ≡ to_ℕ x - n
to_ℕ-minus (pos a) n = ground arith
to_ℕ-minus (negsuc a) n = ground arith

positive : (x : ℤ) → is_positive x ≡ true → 0 < to_ℕ x
positive (pos a) h = ground arith
positive (negsuc a) h = ground arith

positive-zero : (n : ℕ) → 0 < n → ¬ (n ≤ 0)
positive-zero n h = omega arith

-- A round that goes on takes two bytes at least.
data Round (r : Reading) : Result Reading → Type 0 where
  faulted : Round r overrun
  goes_on : (r' : Reading) (n : ℕ) → r'.len ≡ minus r.len (n + 2) → Round r (ok r')

module _ (ss7 : Ss7) (m : Mem) (message : ℕ) where
  round_by :
      (r : Reading) (f : Receive) (o : Option (Call × ℕ))
      → f ss7 r.call message m (r.at + 2) (m (r.at + 1)) ≡ o
      → receive_of parms (m r.at) ≡ some f
      → Round r (read_option ss7 m message r)
  unfolding read_option do_parm_rx receive_by
  round_by r f none g e = rw (e, g) faulted
  round_by r f (some x) g e = rw (e, g) (goes_on _ (x.1) refl)

  round_of :
      (r : Reading) (o : Option Receive)
      → receive_of parms (m r.at) ≡ o
      → Round r (read_option ss7 m message r)
  unfolding read_option do_parm_rx
  round_of r none e = rw e (goes_on _ (m (r.at + 1)) refl)
  round_of r (some f) e = round_by r f _ refl e

  round : (r : Reading) → Round r (read_option ss7 m message r)
  round r = round_of r (receive_of parms (m r.at)) refl

  stops :
      (n : ℕ) (r : Reading)
      → (not (is_positive r.len) || m r.at == 0) ≡ true
      → Ends (read_optional ss7 m message n r)
  unfolding read_optional
  stops zero r e = (ok r.call, rw e)
  stops (suc n) r e = (ok r.call, rw e)

  going :
      (n : ℕ) (r : Reading) (x : Result Reading)
      → read_option ss7 m message r ≡ x
      → Round r x
      → (not (is_positive r.len) || m r.at == 0) ≡ false
      → ((r' : Reading) → to_ℕ r'.len ≤ n → Ends (read_optional ss7 m message n r'))
      → to_ℕ r.len ≤ suc n
      → Ends (read_optional ss7 m message (suc n) r)
  unfolding read_optional
  going n r overrun e faulted h ih le = rw (h, e) (overrun, refl)
  going n r refused e x h ih le = elim x [ ]
  going n r (ok _) e (goes_on r' k l) h ih le =
      rw (h, e) (ih r' (rw (l, to_ℕ-minus r.len (k + 2)) (omega arith)))

  running : (x : ℤ) (b : Bool) → (not (is_positive x) || b) ≡ false → 0 < to_ℕ x
  running (pos a) b h = ground arith
  running (negsuc a) b h = ground arith

  read_optional-Ends :
      (n : ℕ) (r : Reading) → to_ℕ r.len ≤ n → Ends (read_optional ss7 m message n r)
  read_optional-Ends zero r le = elim (Bool-cases (not (is_positive r.len) || m r.at == 0)) [
    | inl e ↦ stops zero r e
    | inr e ↦ elim (positive-zero (to_ℕ r.len) (running r.len (m r.at == 0) e) le) [ ]
  ]
  read_optional-Ends (suc n) r le = elim (Bool-cases (not (is_positive r.len) || m r.at == 0)) [
    | inl e ↦ stops (suc n) r e
    | inr e ↦
        going n r (read_option ss7 m message r) refl (round r) e (λ r' l. read_optional-Ends n r' l)
          le
  ]

enter_optional-Ends :
    (ss7 : Ss7) (m : Mem) (x : MessageData) (r : Reading) → Ends (enter_optional ss7 m x r)
unfolding enter_optional
enter_optional-Ends ss7 m x r =
    elim (Bool-cases (not (x.opt_params == 0) && is_positive r.len && not (m r.at == 0))) [
      | inl e ↦ rw e (
          read_optional-Ends ss7 m x.messagetype (to_ℕ r.len)
            (record r { len = minus r.len 1; at = r.at + m r.at })
            (rw (to_ℕ-minus r.len 1) (omega arith)))
      | inr e ↦ rw e (ok r.call, refl)
    ]

after :
    (ss7 : Ss7) (m : Mem) (x : MessageData) (r : Result Reading)
    → Ends (go_on (enter_optional ss7 m x) r)
after ss7 m x overrun = (overrun, refl)
after ss7 m x refused = (refused, refl)
after ss7 m x (ok r) = enter_optional-Ends ss7 m x r

read :
    (ss7 : Ss7) (c : Call) (m : Mem) (at len : ℕ) (o : Option MessageData)
    → Ends (read_message ss7 c m at len o)
read ss7 c m at len none = (refused, refl)
read ss7 c m at len (some x) = after ss7 m x _

-- Any message is read to its end, whatever its bytes are: within as many rounds as the message has
-- bytes left, the loop over the optional parameters has ended.
pub isup_read-Ends : (ss7 : Ss7) (c : Call) (m : Mem) (at len : ℕ) → Ends (isup_read ss7 c m at len)
unfolding isup_read
isup_read-Ends ss7 c m at len = read ss7 c m at len (message_of ss7.switchtype (m (at + 2)))
