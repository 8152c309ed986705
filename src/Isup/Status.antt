-- ===== src/Isup/Status.antt =====
-- The parameters that hold the state of a range of circuits, and the comparison of an answer with
-- what was sent. `status` is an array of 255 bytes.
mod Bits
mod Writing
mod Reading
pub mod Roundtrip
pub mod Check
use Prim.Native.Nat.{bit_or}
use libss.Base.{
  ℕ, zero, suc, ◌+◌, ◌-◌, ◌*◌, ◌/◌, ◌%◌, ◌^◌, Bool, true, false, not, ◌||◌, Option, none, some,
  List, [], ◌∷◌, if◌then◌else◌, ltb, leb, ◌==◌, length, get_or, set, bit,
}
use libss.Isup.Bytes.{Mem, store, or_at}
use libss.Isup.Call.{Call, Ss7, Written}

-- ISUP_GRS, ISUP_CQM and ISUP_CQR
abbrev pub isup_grs : ℕ
isup_grs = 0x17

abbrev pub isup_cqm : ℕ
isup_cqm = 0x2a

abbrev pub isup_cqr : ℕ
isup_cqr = 0x2b

abbrev pub no_status : ℕ → Bool
no_status messagetype =
    messagetype == isup_cqr || messagetype == isup_cqm || messagetype == isup_grs

-- `parm[1 + (i/8)] & (1 << (i%8))`
unfoldable pub status_bit : Mem → ℕ → ℕ → Bool
status_bit m p i = m (p + 1 + i / 8) / 2 ^ (i % 8) % 2 == 1

-- The loop from circuit `i` on, for `n` circuits; `none` is a write behind the array.
unfoldable pub read_status : Mem → ℕ → ℕ → ℕ → List ℕ → Option (List ℕ)
unfolding status_bit
read_status m p i zero status = some status
read_status m p i (suc n) status =
    let rest = read_status m p (i + 1) n (set status i (bit (status_bit m p i))) in
    if ltb i (length status) then rest else none

unfoldable pub range_and_status_receive : Ss7 → Call → ℕ → Mem → ℕ → ℕ → Option (Call × ℕ)
unfolding read_status
range_and_status_receive ss7 c messagetype m p len =
    let c' = record c { range = m p } in
    if no_status messagetype then some (c', len) else elim (read_status m p 0 (m p + 1) c.status) [
      | none ↦ none
      | some s ↦ some (record c' { status = s }, len)
    ]

-- The loop from circuit `i` on, over the entries of `status` from `i` to the end of the range.
unfoldable pub write_status : Mem → ℕ → ℕ → List ℕ → Mem
write_status m p i [] = m
write_status m p i (s ∷ ss) =
    let m₁ = if i % 8 == 0 then store m (p + 1 + i / 8) 0 else m in
    let m₂ = if s == 0 then m₁ else or_at m₁ (p + 1 + i / 8) (2 ^ (i % 8)) in
    write_status m₂ p (i + 1) ss

abbrev pub take : ℕ → List ℕ → List ℕ
take zero ss = []
take (suc n) [] = []
take (suc n) (s ∷ ss) = s ∷ take n ss

unfoldable pub range_and_status_transmit : Ss7 → Call → ℕ → Mem → ℕ → ℕ → Option Written
unfolding write_status
range_and_status_transmit ss7 c messagetype m p len =
    let numcics = c.range + 1 in
    let m₁ = store m p c.range in
    let statuslen = numcics / 8 + (if numcics % 8 == 0 then 0 else 1) in
    if no_status messagetype
    then some (record { call = c; buf = m₁; size = 1 })
    else if ltb (length c.status) numcics
    then none
    else some (record {
      call = c;
      buf = write_status m₁ p 0 (take numcics c.status);
      size = statuslen + 1;
    })

-- The loop of `circuit_state_ind_transmit`.
unfoldable pub write_states : Mem → ℕ → List ℕ → Mem
write_states m p [] = m
write_states m p (s ∷ ss) = write_states (store m p s) (p + 1) ss

unfoldable pub circuit_state_ind_transmit : Ss7 → Call → ℕ → Mem → ℕ → ℕ → Option Written
unfolding write_states
circuit_state_ind_transmit ss7 c messagetype m p len =
    let numcics = c.range + 1 in
    if ltb (length c.status) numcics
    then none
    else some (record { call = c; buf = write_states m p (take numcics c.status); size = numcics })

-- The loop of `isup_check_status` over the entries in range.
unfoldable pub check_status : List ℕ → List ℕ → ℕ
check_status (s ∷ sent) (g ∷ got) = let rest = check_status sent got in if ltb s g then 1 else rest
check_status sent got = 0

-- `none` is a read behind one of the arrays.
unfoldable pub isup_check_status : List ℕ → List ℕ → ℕ → Option ℕ
unfolding check_status
isup_check_status sent_status got_status range =
    if ltb (length sent_status) (range + 1) || ltb (length got_status) (range + 1)
    then none
    else some (check_status (take (range + 1) sent_status) (take (range + 1) got_status))
