-- ===== src/Isup/Plain.antt =====
-- The generic name, and the parameters that are skipped on receipt or sent with a fixed content.
use libss.Base.{
  ℕ, zero, suc, ◌+◌, ◌-◌, ◌*◌, ◌/◌, ◌%◌, ◌||◌, Option, none, some, List, [], ◌∷◌, ◌++◌,
  if◌then◌else◌, ltb, length, ◌==◌, drop,
}
use libss.Isup.Bytes.{Mem, store}
use libss.Isup.Call.{Name, Call, Ss7, Written, c_string, is_empty}
use libss.Isup.Fields.{skipped}
use libss.Isup.Indicators.{sent}

abbrev pub isup_max_name : ℕ
isup_max_name = 16

-- The bytes at `p`, `n` of them.
unfoldable pub bytes : Mem → ℕ → ℕ → List ℕ
bytes m p zero = []
bytes m p (suc n) = m p ∷ bytes m (p + 1) n

-- memcpy of a text to `p`.
unfoldable pub put_bytes : Mem → ℕ → List ℕ → Mem
put_bytes m p [] = m
put_bytes m p (c ∷ cs) = put_bytes (store m p c) (p + 1) cs

-- The array is not cleared, so bytes behind the copy keep their values. A length of 0 makes the
-- count of memcpy negative.
unfoldable pub generic_name_receive : Ss7 → Call → ℕ → Mem → ℕ → ℕ → Option (Call × ℕ)
unfolding bytes
generic_name_receive ss7 c messagetype m p len =
    let n : Name = record {
      typeofname = m p / 32 % 8;
      avail = m p / 16 % 2;
      presentation = m p % 4;
      text = bytes m (p + 1) (len - 1) ++ drop (len - 1) c.name.text;
    } in
    if len == 0 || ltb (isup_max_name + 1) len then none else some (record c { name = n }, len)

-- strlen runs on behind an array with no NUL.
unfoldable pub generic_name_transmit : Ss7 → Call → ℕ → Mem → ℕ → ℕ → Option Written
unfolding put_bytes c_string
generic_name_transmit ss7 c messagetype m p len =
    let name = c_string c.name.text in
    let head = c.name.typeofname * 32 + c.name.avail % 2 * 16 + c.name.presentation % 4 in
    if length name == length c.name.text
    then none
    else if is_empty name
    then sent c m 0
    else sent c (put_bytes (store m p head) (p + 1) name) (length name + 1)

unfoldable pub carrier_identification_receive : Ss7 → Call → ℕ → Mem → ℕ → ℕ → Option (Call × ℕ)
carrier_identification_receive ss7 c messagetype m p len = skipped c len

unfoldable pub hop_counter_receive : Ss7 → Call → ℕ → Mem → ℕ → ℕ → Option (Call × ℕ)
hop_counter_receive ss7 c messagetype m p len = skipped c 1

unfoldable pub facility_ind_receive : Ss7 → Call → ℕ → Mem → ℕ → ℕ → Option (Call × ℕ)
facility_ind_receive ss7 c messagetype m p len = skipped c 1

unfoldable pub tns_transmit : Ss7 → Call → ℕ → Mem → ℕ → ℕ → Option Written
tns_transmit ss7 c messagetype m p len = sent c m 0

unfoldable pub tns_receive : Ss7 → Call → ℕ → Mem → ℕ → ℕ → Option (Call × ℕ)
tns_receive ss7 c messagetype m p len = skipped c len

unfoldable pub generic_notification_ind_transmit : Ss7 → Call → ℕ → Mem → ℕ → ℕ → Option Written
generic_notification_ind_transmit ss7 c messagetype m p len = sent c m 0

unfoldable pub generic_notification_ind_receive : Ss7 → Call → ℕ → Mem → ℕ → ℕ → Option (Call × ℕ)
generic_notification_ind_receive ss7 c messagetype m p len = skipped c len

unfoldable pub access_transport_receive : Ss7 → Call → ℕ → Mem → ℕ → ℕ → Option (Call × ℕ)
access_transport_receive ss7 c messagetype m p len = skipped c len

-- Nothing is written, and the room left in the message is the length.
unfoldable pub access_transport_transmit : Ss7 → Call → ℕ → Mem → ℕ → ℕ → Option Written
access_transport_transmit ss7 c messagetype m p len = sent c m len
