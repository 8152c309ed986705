-- ===== src/Isup/Fields.antt =====
-- The other parameters of fixed layout, and those that are skipped or sent with a fixed content.
pub mod Roundtrip
pub mod Reference
pub mod Interlock
use Prim.Native.Nat.{bit_or}
use libss.Base.{
  ℕ, ◌+◌, ◌-◌, ◌*◌, ◌/◌, ◌%◌, ◌^◌, Bool, true, false, ◌||◌, Option, none, some, List, [], ◌∷◌,
  if◌then◌else◌, ltb, ◌==◌, get_or,
}
use libss.Base.Int.{ℤ, pos, negsuc}
use libss.Mtp2.Transmit.{ansi}
use libss.Isup.Bytes.{Mem, store}
use libss.Isup.Digits.{char2digit, digit2char}
use libss.Isup.Call.{Number, Redirection, CallRef, Cug, Cot, Call, Ss7, Written}
use libss.Isup.Numbers.{addr_not_available}
use libss.Isup.Indicators.{sent}

-- The parameter is not looked at.
abbrev pub skipped : Call → ℕ → Option (Call × ℕ)
skipped c n = some (c, n)

unfoldable pub redirection_info_receive : Ss7 → Call → ℕ → Mem → ℕ → ℕ → Option (Call × ℕ)
redirection_info_receive ss7 c messagetype m p len =
    let r : Redirection = record {
      info = 1;
      ind = m p % 8;
      orig_reas = m p / 16 % 16;
      counter = m (p + 1) % 8;
      reas = m (p + 1) / 16 % 16;
    } in
    some (record c { redirection = r }, 2)

unfoldable pub redirection_info_transmit : Ss7 → Call → ℕ → Mem → ℕ → ℕ → Option Written
redirection_info_transmit ss7 c messagetype m p len =
    let r = c.redirection in
    let m₁ = store m p (r.ind % 8 + r.orig_reas % 16 * 16) in
    if r.info == 0
    then sent c m 0
    else sent c (store m₁ (p + 1) (r.counter % 8 + r.reas % 16 * 16)) 2

unfoldable pub redirect_counter_receive : Ss7 → Call → ℕ → Mem → ℕ → ℕ → Option (Call × ℕ)
redirect_counter_receive ss7 c messagetype m p len =
    some (record c { redirect_counter = m p % 32 }, 1)

unfoldable pub redirect_counter_transmit : Ss7 → Call → ℕ → Mem → ℕ → ℕ → Option Written
redirect_counter_transmit ss7 c messagetype m p len =
    if c.redirect_counter == 0 then sent c m 0 else sent c (store m p (c.redirect_counter % 32)) 1

-- The first three bytes are the identity; the point code has three bytes or fourteen bits.
unfoldable pub call_ref_receive : Ss7 → Call → ℕ → Mem → ℕ → ℕ → Option (Call × ℕ)
call_ref_receive ss7 c messagetype m p len =
    let ident = m p + m (p + 1) * 2 ^ 8 + m (p + 2) * 2 ^ 16 in
    let pc =
      if ss7.switchtype == ansi
      then m (p + 3) + m (p + 4) * 2 ^ 8 + m (p + 5) * 2 ^ 16
      else m (p + 3) + m (p + 4) % 2 ^ 6 * 2 ^ 8 in
    some (record c { call_ref = record { ident = ident; pc = pc } }, len)

unfoldable pub write_ident : Mem → ℕ → ℕ → Mem
write_ident m p ident =
    store (store (store m p (ident % 2 ^ 8)) (p + 1) (ident / 2 ^ 8 % 2 ^ 8)) (p + 2)
      (ident / 2 ^ 16 % 2 ^ 8)

unfoldable pub call_ref_transmit : Ss7 → Call → ℕ → Mem → ℕ → ℕ → Option Written
unfolding write_ident
call_ref_transmit ss7 c messagetype m p len =
    let m₁ = write_ident m p c.call_ref.ident in
    let m₂ = store m₁ (p + 3) (c.call_ref.pc % 2 ^ 8) in
    if c.call_ref.ident == 0
    then sent c m 0
    else if ss7.switchtype == ansi
    then sent c
        (store (store m₂ (p + 4) (c.call_ref.pc / 2 ^ 8 % 2 ^ 8)) (p + 5)
          (c.call_ref.pc / 2 ^ 16 % 2 ^ 8))
        6
    else sent c (store m₂ (p + 4) (c.call_ref.pc / 2 ^ 8 % 2 ^ 6)) 5

-- ISUP_CUG_OUTGOING_ALLOWED and ISUP_CUG_OUTGOING_NOT_ALLOWED
abbrev pub in_user_group : ℕ → Bool
in_user_group indicator = indicator == 2 || indicator == 3

unfoldable pub cug_interlock_code_receive : Ss7 → Call → ℕ → Mem → ℕ → ℕ → Option (Call × ℕ)
cug_interlock_code_receive ss7 c messagetype m p len =
    let ni : List ℕ =
      digit2char (m p / 16)
      ∷ digit2char (m p % 16)
      ∷ digit2char (m (p + 1) / 16)
      ∷ digit2char (m (p + 1) % 16)
      ∷ [] in
    let cug = record c.cug { interlock_ni = ni; interlock_code = m (p + 2) * 256 + m (p + 3) } in
    some (record c { cug = cug }, 4)

-- The four characters at the indices 0 to 3; behind the text there are zeros.
unfoldable pub cug_interlock_code_transmit : Ss7 → Call → ℕ → Mem → ℕ → ℕ → Option Written
cug_interlock_code_transmit ss7 c messagetype m p len =
    let digit = λ (i : ℕ). char2digit (get_or c.cug.interlock_ni i 0) in
    let m₁ = store m p (digit 0 * 16 + digit 1) in
    let m₂ = store m₁ (p + 1) (digit 2 * 16 + digit 3) in
    let m₃ = store m₂ (p + 2) (c.cug.interlock_code / 256) in
    if in_user_group c.cug.indicator
    then sent c (store m₃ (p + 3) (c.cug.interlock_code % 256)) 4
    else sent c m 0

unfoldable pub continuity_ind_transmit : Ss7 → Call → ℕ → Mem → ℕ → ℕ → Option Written
continuity_ind_transmit ss7 c messagetype m p len =
    sent c (store m p (if c.cot.check_passed == 0 then 0x00 else 0x01)) 1

unfoldable pub continuity_ind_receive : Ss7 → Call → ℕ → Mem → ℕ → ℕ → Option (Call × ℕ)
continuity_ind_receive ss7 c messagetype m p len =
    some (record c { cot = record c.cot { check_passed = m p % 2 } }, 1)

unfoldable pub circuit_group_supervision_receive : Ss7 → Call → ℕ → Mem → ℕ → ℕ → Option (Call × ℕ)
circuit_group_supervision_receive ss7 c messagetype m p len =
    some (record c { cicgroupsupervisiontype = m p % 4 }, 1)

unfoldable pub circuit_group_supervision_transmit : Ss7 → Call → ℕ → Mem → ℕ → ℕ → Option Written
circuit_group_supervision_transmit ss7 c messagetype m p len =
    sent c (store m p (c.cicgroupsupervisiontype % 4)) 1

unfoldable pub event_info_receive : Ss7 → Call → ℕ → Mem → ℕ → ℕ → Option (Call × ℕ)
event_info_receive ss7 c messagetype m p len = some (record c { event_info = m p }, 1)

unfoldable pub event_info_transmit : Ss7 → Call → ℕ → Mem → ℕ → ℕ → Option Written
event_info_transmit ss7 c messagetype m p len = sent c (store m p c.event_info) 1

unfoldable pub inr_ind_receive : Ss7 → Call → ℕ → Mem → ℕ → ℕ → Option (Call × ℕ)
inr_ind_receive ss7 c messagetype m p len = some (record c { inr_ind = (m p, m (p + 1)) }, 2)

unfoldable pub inr_ind_transmit : Ss7 → Call → ℕ → Mem → ℕ → ℕ → Option Written
inr_ind_transmit ss7 c messagetype m p len =
    sent c (store (store m p c.inr_ind.0) (p + 1) c.inr_ind.1) 2

-- The calling party's address is not available where the low two bits are 1.
unfoldable pub inf_ind_receive : Ss7 → Call → ℕ → Mem → ℕ → ℕ → Option (Call × ℕ)
inf_ind_receive ss7 c messagetype m p len =
    let c' = record c { inf_ind = (m p, m (p + 1)) } in
    let n = record c.calling { presentation_ind = addr_not_available } in
    some ((if m p % 4 == 1 then record c' { calling = n } else c'), 2)

unfoldable pub inf_ind_transmit : Ss7 → Call → ℕ → Mem → ℕ → ℕ → Option Written
inf_ind_transmit ss7 c messagetype m p len =
    sent c (store (store m p c.inf_ind.0) (p + 1) c.inf_ind.1) 2

unfoldable pub suspend_resume_ind_receive : Ss7 → Call → ℕ → Mem → ℕ → ℕ → Option (Call × ℕ)
suspend_resume_ind_receive ss7 c messagetype m p len =
    some (record c { network_isdn_indicator = m p % 2 }, 1)

unfoldable pub suspend_resume_ind_transmit : Ss7 → Call → ℕ → Mem → ℕ → ℕ → Option Written
suspend_resume_ind_transmit ss7 c messagetype m p len =
    sent c (store m p (c.network_isdn_indicator % 2)) 1

unfoldable pub originating_line_information_receive :
    Ss7 → Call → ℕ → Mem → ℕ → ℕ → Option (Call × ℕ)
originating_line_information_receive ss7 c messagetype m p len =
    some (record c { oli_ani2 = pos (m p) }, 1)

-- A negative value sends nothing; from 99 on it is sent as 0.
unfoldable pub originating_line_information_transmit : Ss7 → Call → ℕ → Mem → ℕ → ℕ → Option Written
originating_line_information_transmit ss7 c messagetype m p len = elim c.oli_ani2 [
  | negsuc n ↦ sent c m 0
  | pos n ↦ sent c (store m p (if ltb n 99 then n else 0)) 1
]

-- `forward_call_ind_receive` and `opt_backward_call_ind_receive` skip a known length.
unfoldable pub forward_call_ind_receive : Ss7 → Call → ℕ → Mem → ℕ → ℕ → Option (Call × ℕ)
forward_call_ind_receive ss7 c messagetype m p len = skipped c 2

unfoldable pub opt_backward_call_ind_receive : Ss7 → Call → ℕ → Mem → ℕ → ℕ → Option (Call × ℕ)
opt_backward_call_ind_receive ss7 c messagetype m p len = skipped c 1

unfoldable pub user_service_info_receive : Ss7 → Call → ℕ → Mem → ℕ → ℕ → Option (Call × ℕ)
user_service_info_receive ss7 c messagetype m p len = skipped c len

unfoldable pub carrier_identification_transmit : Ss7 → Call → ℕ → Mem → ℕ → ℕ → Option Written
carrier_identification_transmit ss7 c messagetype m p len =
    sent c (store (store (store m p 0x22) (p + 1) 0x00) (p + 2) 0x00) 3

unfoldable pub hop_counter_transmit : Ss7 → Call → ℕ → Mem → ℕ → ℕ → Option Written
hop_counter_transmit ss7 c messagetype m p len = sent c (store m p 0x01) 1

unfoldable pub facility_ind_transmit : Ss7 → Call → ℕ → Mem → ℕ → ℕ → Option Written
facility_ind_transmit ss7 c messagetype m p len = sent c (store m p 0x10) 1
