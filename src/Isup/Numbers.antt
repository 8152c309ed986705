-- ===== src/Isup/Numbers.antt =====
-- The parameters that hold a telephone number and are the same in both networks. `p` is where the
-- parameter begins in the message; `|` of fields that cannot overlap is a sum.
pub mod Back
pub mod Roundtrip
pub mod Called
pub mod Overrun
use Prim.Native.Nat.{bit_or}
use libss.Base.{
  ℕ, ◌+◌, ◌-◌, ◌*◌, ◌/◌, ◌%◌, Bool, true, false, ◌&&◌, not, Option, none, some, if◌then◌else◌, ◌==◌,
  [],
}
use libss.Isup.Bytes.{Mem, store}
use libss.Isup.Call.{Number, Call, Ss7, Written, ◌>>=◌, is_empty, get_text, put_text}

-- SS7_PRESENTATION_ADDR_NOT_AVAILABLE
abbrev pub addr_not_available : ℕ
addr_not_available = 2

-- The top bit of a byte.
abbrev pub top : ℕ → ℕ
top b = b / 128 % 2

unfoldable pub called_party_num_receive : Ss7 → Call → ℕ → Mem → ℕ → ℕ → Option (Call × ℕ)
called_party_num_receive ss7 c messagetype m p len = do
  let odd = if top (m p) == 1 then 1 else 0
  s ← get_text m (p + 2) (len - 2) odd
  some (record c { called_party_num = s; called_nai = m p % 128 }, len)

unfoldable pub called_party_num_transmit : Ss7 → Call → ℕ → Mem → ℕ → ℕ → Option Written
called_party_num_transmit ss7 c messagetype m p len = do
  (m₀, numlen, oddeven) ← put_text m (p + 2) c.called_party_num
  let m₁ = store m₀ p (c.called_nai % 128)
  let m₂ = if oddeven == 0 then m₁ else store m₁ p (m₁ p + 128)
  some (record { call = c; buf = store m₂ (p + 1) 16; size = numlen + 2 })

-- What four of the receive functions make of the two bytes before the number.
unfoldable pub read_number : Mem → ℕ → ℕ → Option Number
read_number m p len = do
  s ← get_text m (p + 2) (len - 2) (top (m p))
  some (record {
    num = s;
    nai = m p % 128;
    presentation_ind = m (p + 1) / 4 % 4;
    screening_ind = m (p + 1) % 4;
  })

-- The two bytes, with the bits above the two indicators.
unfoldable pub write_head : Mem → ℕ → Number → ℕ → ℕ → Mem
write_head m p n oddeven plan =
    let m₁ = store m p (bit_or (oddeven * 128) n.nai) in
    store m₁ (p + 1) (plan + n.presentation_ind % 4 * 4 + n.screening_ind % 4)

unfoldable pub calling_party_num_receive : Ss7 → Call → ℕ → Mem → ℕ → ℕ → Option (Call × ℕ)
calling_party_num_receive ss7 c messagetype m p len = do
  n ← read_number m p len
  some (record c { calling = n }, len)

-- Without an address the nature of address is cleared, in the call too.
unfoldable pub calling_party_num_transmit : Ss7 → Call → ℕ → Mem → ℕ → ℕ → Option Written
unfolding write_head
calling_party_num_transmit ss7 c messagetype m p len =
    let unavailable = c.calling.presentation_ind == addr_not_available in
    let n = record c.calling { nai = 0 } in
    if unavailable
    then some (record { call = record c { calling = n }; buf = write_head m p n 0 0; size = 2 })
    else if is_empty c.calling.num
    then some (record { call = c; buf = m; size = 0 })
    else do
      (m₀, datalen, oddeven) ← put_text m (p + 2) c.calling.num
      some (record { call = c; buf = write_head m₀ p c.calling oddeven 16; size = datalen + 2 })

unfoldable pub connected_num_receive : Ss7 → Call → ℕ → Mem → ℕ → ℕ → Option (Call × ℕ)
connected_num_receive ss7 c messagetype m p len = do
  n ← read_number m p len
  some (record c { connected = n }, len)

unfoldable pub connected_num_transmit : Ss7 → Call → ℕ → Mem → ℕ → ℕ → Option Written
unfolding write_head
connected_num_transmit ss7 c messagetype m p len =
    let n = record c.connected { presentation_ind = addr_not_available } in
    if c.col_req == 0
    then some (record { call = c; buf = m; size = 0 })
    else if is_empty c.connected.num
    then some (record { call = record c { connected = n }; buf = write_head m p n 0 0; size = 2 })
    else do
      (m₀, datalen, oddeven) ← put_text m (p + 2) c.connected.num
      some (record { call = c; buf = write_head m₀ p c.connected oddeven 0; size = datalen + 2 })

-- The common part of the next two transmit functions.
unfoldable pub write_number : Call → Number → Mem → ℕ → Option Written
unfolding write_head
write_number c n m p = if is_empty n.num then some (record { call = c; buf = m; size = 0 }) else do
  (m₀, datalen, oddeven) ← put_text m (p + 2) n.num
  some (record { call = c; buf = write_head m₀ p n oddeven 16; size = datalen + 2 })

unfoldable pub original_called_num_receive : Ss7 → Call → ℕ → Mem → ℕ → ℕ → Option (Call × ℕ)
original_called_num_receive ss7 c messagetype m p len = do
  n ← read_number m p len
  some (record c { orig_called = n }, len)

unfoldable pub original_called_num_transmit : Ss7 → Call → ℕ → Mem → ℕ → ℕ → Option Written
unfolding write_number
original_called_num_transmit ss7 c messagetype m p len = write_number c c.orig_called m p

unfoldable pub redirecting_number_receive : Ss7 → Call → ℕ → Mem → ℕ → ℕ → Option (Call × ℕ)
redirecting_number_receive ss7 c messagetype m p len = do
  n ← read_number m p len
  some (record c { redirecting = n }, len)

unfoldable pub redirecting_number_transmit : Ss7 → Call → ℕ → Mem → ℕ → ℕ → Option Written
unfolding write_number
redirecting_number_transmit ss7 c messagetype m p len = write_number c c.redirecting m p

unfoldable pub subs_num_receive : Ss7 → Call → ℕ → Mem → ℕ → ℕ → Option (Call × ℕ)
subs_num_receive ss7 c messagetype m p len = do
  s ← get_text m (p + 1) (len - 1) (top (m p))
  some (record c { called_party_num = s }, len)

unfoldable pub subs_num_transmit : Ss7 → Call → ℕ → Mem → ℕ → ℕ → Option Written
subs_num_transmit ss7 c messagetype m p len = do
  (m₀, datalen, oddeven) ← put_text m (p + 1) c.called_party_num
  some (record { call = c; buf = store m₀ p (oddeven * 128); size = datalen + 1 })
