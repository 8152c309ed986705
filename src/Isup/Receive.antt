-- ===== src/Isup/Receive.antt =====
-- The part of `isup_receive` that reads a message into the call that was found for it. Positions are
-- counted from where the buffer begins.
pub mod Ends
pub mod Kept
use libss.Base.{
  ℕ, zero, suc, ◌+◌, ◌-◌, ◌*◌, ◌/◌, ◌%◌, Bool, true, false, ◌&&◌, ◌||◌, not, Option, none, some,
  List, [], ◌∷◌, if◌then◌else◌, ◌==◌,
}
use libss.Base.Int.{ℤ, pos, negsuc, eq_ℤ, is_positive, minus, to_ℕ}
use libss.Mtp2.Transmit.{itu}
use libss.Isup.Bytes.{Mem}
use libss.Isup.Call.{Call, Ss7}
use libss.Isup.Parms.{
  Result, overrun, refused, ok, ◌>>=◌, ParmType, fixed, variable, optional, do_parm_rx,
}
use libss.Isup.Messages.{MessageData, message_of, received_params}

-- `mh->cic`
unfoldable pub get_cic : Ss7 → Mem → ℕ → ℕ
get_cic ss7 m at = m at + m (at + 1) % (if ss7.switchtype == itu then 16 else 64) * 256

-- `len`, the bytes left, and the position where the next parameter or pointer is.
pub record Reading : Type 0 where
  pub call : Call
  pub len : ℤ
  pub at : ℕ

-- No receive function of a fixed parameter looks at the bytes left, so their sign does not matter.
unfoldable pub read_fixed : Ss7 → Mem → ℕ → ℕ → List ℕ → Reading → Result (Reading × List ℕ)
read_fixed ss7 m message zero parms r = ok (r, parms)
read_fixed ss7 m message (suc n) [] r = refused
read_fixed ss7 m message (suc n) (parm ∷ parms) r =
    do_parm_rx ss7 r.call message parm m r.at (to_ℕ r.len) fixed >>= λ x.
    read_fixed ss7 m message n parms
      (record { call = x.0; len = minus r.len (x.1); at = r.at + x.1 })

-- The loop also ends at a pointer of 0, and where exactly nothing is left.
unfoldable pub read_variable : Ss7 → Mem → ℕ → ℕ → List ℕ → Reading → Result Reading
read_variable ss7 m message zero parms r = ok r
read_variable ss7 m message (suc n) [] r =
    if eq_ℤ r.len (pos 0) || m r.at == 0 then ok r else refused
read_variable ss7 m message (suc n) (parm ∷ parms) r =
    let next = do_parm_rx ss7 r.call message parm m (r.at + m r.at) (to_ℕ r.len) variable >>= λ x.
    read_variable ss7 m message n parms
      (record { call = x.0; len = minus r.len (x.1 + 1); at = r.at + 1 }) in
    if eq_ℤ r.len (pos 0) || m r.at == 0 then ok r else next

-- What is left after an optional parameter. One that do_parm refuses is skipped by its length.
abbrev pub after_option : Reading → ℕ → Result (Call × ℕ) → Result Reading
after_option r skip overrun = overrun
after_option r skip refused = ok (record r { len = minus r.len skip; at = r.at + skip })
after_option r skip (ok x) = ok (record { call = x.0; len = minus r.len (x.1); at = r.at + x.1 })

-- One round of the loop over the optional parameters.
unfoldable pub read_option : Ss7 → Mem → ℕ → Reading → Result Reading
read_option ss7 m message r =
    after_option r (m (r.at + 1) + 2)
      (do_parm_rx ss7 r.call message (m r.at) m r.at (to_ℕ r.len) optional)

-- The next round, where there is one.
abbrev pub go_on : (Reading → Option (Result Call)) → Result Reading → Option (Result Call)
go_on next overrun = some overrun
go_on next refused = some refused
go_on next (ok r) = next r

-- The loop, on fuel: none is a loop that has not ended.
unfoldable pub read_optional : Ss7 → Mem → ℕ → ℕ → Reading → Option (Result Call)
read_optional ss7 m message zero r =
    if not (is_positive r.len) || m r.at == 0 then some (ok r.call) else none
read_optional ss7 m message (suc n) r =
    let next = go_on (read_optional ss7 m message n) (read_option ss7 m message r) in
    if not (is_positive r.len) || m r.at == 0 then some (ok r.call) else next

-- The optional parameters begin at a distance from their pointer.
unfoldable pub enter_optional : Ss7 → Mem → MessageData → Reading → Option (Result Call)
enter_optional ss7 m x r =
    if not (x.opt_params == 0) && is_positive r.len && not (m r.at == 0)
    then read_optional ss7 m x.messagetype (to_ℕ r.len)
        (record r { len = minus r.len 1; at = r.at + m r.at })
    else some (ok r.call)

-- The mandatory parameters.
unfoldable pub read_mandatory : Ss7 → Mem → MessageData → Reading → Result Reading
read_mandatory ss7 m x r =
    read_fixed ss7 m x.messagetype x.mand_fixed_params (received_params ss7.switchtype x) r >>= λ f.
    if is_positive (f.0.len)
    then read_variable ss7 m x.messagetype x.mand_var_params (f.1) (f.0)
    else ok (f.0)

abbrev pub read_message : Ss7 → Call → Mem → ℕ → ℕ → Option MessageData → Option (Result Call)
read_message ss7 c m at len none = some refused
read_message ss7 c m at len (some x) =
    go_on (enter_optional ss7 m x)
      (read_mandatory ss7 m x (record { call = c; len = minus (pos len) 3; at = at + 3 }))

-- `len` is the length of the message with its header of three bytes, which is at `at`.
unfoldable pub isup_read : Ss7 → Call → Mem → ℕ → ℕ → Option (Result Call)
isup_read ss7 c m at len = read_message ss7 c m at len (message_of ss7.switchtype (m (at + 2)))
