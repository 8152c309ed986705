-- ===== src/Isup/Indicators.antt =====
-- The parameters of fixed layout. A C `int` or `unsigned char` that holds a flag is a number.
pub mod Roundtrip
use Prim.Native.Nat.{bit_or}
use libss.Base.{
  ℕ, ◌+◌, ◌-◌, ◌*◌, ◌/◌, ◌%◌, Bool, true, false, ◌&&◌, ◌||◌, not, Option, none, some, List, [], ◌∷◌,
  if◌then◌else◌, ltb, ◌==◌, get_or,
}
use libss.Base.Int.{ℤ, pos, negsuc}
use libss.Mtp2.Transmit.{itu, ansi}
use libss.Isup.Bytes.{Mem, store}
use libss.Isup.Digits.{char2digit, digit2char}
use libss.Isup.Call.{Redirection, Cause, CallRef, Cug, Cot, Call, Ss7, Written}
use libss.Isup.Numbers.{addr_not_available}

-- The call is unchanged.
abbrev pub sent : Call → Mem → ℕ → Option Written
sent c m n = some (record { call = c; buf = m; size = n })

unfoldable pub nature_of_connection_ind_transmit : Ss7 → Call → ℕ → Mem → ℕ → ℕ → Option Written
nature_of_connection_ind_transmit ss7 c messagetype m p len =
    let check = if c.cot.check_required == 0 then 0 else 0x04 in
    let previous = if c.cot.performed_on_previous_cic == 0 then 0 else 0x08 in
    let echo = if c.local_echocontrol_ind == 0 then 0 else 0x10 in
    sent c (store m p (check + previous + echo)) 1

unfoldable pub nature_of_connection_ind_receive : Ss7 → Call → ℕ → Mem → ℕ → ℕ → Option (Call × ℕ)
nature_of_connection_ind_receive ss7 c messagetype m p len =
    let cci = m p / 4 % 4 in
    let cot = record c.cot { check_required = cci % 2; performed_on_previous_cic = cci / 2 % 2 } in
    some (record c { cot = cot; echocontrol_ind = m p / 16 % 2 }, 1)

-- SS7_ISDN_ACCESS_INDICATOR is bit 1 of `ss7->flags`. `0x60` and bit 3 do not overlap, nor do bit 0
-- and the high half of the second byte.
unfoldable pub forward_call_ind_transmit : Ss7 → Call → ℕ → Mem → ℕ → ℕ → Option Written
forward_call_ind_transmit ss7 c messagetype m p len =
    let access = ss7.flags / 2 % 2 in
    let interworking = if c.interworking_indicator == 0 then 0 else 0x08 in
    let m₁ = store m p (0x60 + interworking) in
    sent c (store m₁ (p + 1) (access + c.forward_indicator_pmbits / 16 % 16 * 16)) 2

unfoldable pub calling_party_cat_receive : Ss7 → Call → ℕ → Mem → ℕ → ℕ → Option (Call × ℕ)
calling_party_cat_receive ss7 c messagetype m p len = some (record c { calling_party_cat = m p }, 1)

unfoldable pub calling_party_cat_transmit : Ss7 → Call → ℕ → Mem → ℕ → ℕ → Option Written
calling_party_cat_transmit ss7 c messagetype m p len = sent c (store m p c.calling_party_cat) 1

unfoldable pub user_service_info_transmit : Ss7 → Call → ℕ → Mem → ℕ → ℕ → Option Written
user_service_info_transmit ss7 c messagetype m p len =
    sent c (store (store (store m p 0x90) (p + 1) 0x90) (p + 2) 0xa2) 3

unfoldable pub transmission_medium_reqs_transmit : Ss7 → Call → ℕ → Mem → ℕ → ℕ → Option Written
transmission_medium_reqs_transmit ss7 c messagetype m p len =
    if ss7.switchtype == itu then sent c (store m p c.transcap) 1 else sent c m 0

unfoldable pub transmission_medium_reqs_receive : Ss7 → Call → ℕ → Mem → ℕ → ℕ → Option (Call × ℕ)
transmission_medium_reqs_receive ss7 c messagetype m p len =
    some (record c { transcap = m p % 128 }, 1)

unfoldable pub backward_call_ind_receive : Ss7 → Call → ℕ → Mem → ℕ → ℕ → Option (Call × ℕ)
backward_call_ind_receive ss7 c messagetype m p len =
    let c' = record c { called_party_status_ind = m p / 4 % 4 } in
    some (record c' { echocontrol_ind = m (p + 1) / 32 % 2 }, 2)

-- `ss7->flags | SS7_ISDN_ACCESS_INDICATOR` is never 0, so bit 4 is always set.
unfoldable pub backward_call_ind_transmit : Ss7 → Call → ℕ → Mem → ℕ → ℕ → Option Written
backward_call_ind_transmit ss7 c messagetype m p len =
    let echo = if c.local_echocontrol_ind == 0 then 0 else 0x20 in
    let access = if bit_or ss7.flags 2 == 0 then 0 else 0x10 in
    sent c (store (store m p 0x40) (p + 1) (0x04 + echo + access)) 2

unfoldable pub opt_forward_call_ind_transmit : Ss7 → Call → ℕ → Mem → ℕ → ℕ → Option Written
opt_forward_call_ind_transmit ss7 c messagetype m p len =
    if c.col_req == 0 && c.cug.indicator == 0
    then sent c m 0
    else sent c (store m p (c.cug.indicator % 4 + c.col_req * 128)) 1

unfoldable pub opt_forward_call_ind_receive : Ss7 → Call → ℕ → Mem → ℕ → ℕ → Option (Call × ℕ)
opt_forward_call_ind_receive ss7 c messagetype m p len =
    let cug = record c.cug { indicator = m p % 4 } in
    some (record c { cug = cug; col_req = m p / 128 }, 1)

unfoldable pub cause_receive : Ss7 → Call → ℕ → Mem → ℕ → ℕ → Option (Call × ℕ)
cause_receive ss7 c messagetype m p len =
    let x : Cause = record { loc = m p % 16; code = m p / 32 % 4; cause = m (p + 1) % 128 } in
    some (record c { cause = x }, len)

unfoldable pub cause_transmit : Ss7 → Call → ℕ → Mem → ℕ → ℕ → Option Written
cause_transmit ss7 c messagetype m p len =
    let m₁ = store m p (bit_or (bit_or 0x80 (c.cause.code * 32)) c.cause.loc) in
    sent c (store m₁ (p + 1) (bit_or 0x80 c.cause.cause)) 2
