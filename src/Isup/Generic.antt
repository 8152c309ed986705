-- ===== src/Isup/Generic.antt =====
-- The number parameters of ANSI networks: charge number, generic address, generic digits,
-- jurisdiction (JIP) and local service provider.
use Prim.Native.Nat.{bit_or}
use libss.Base.{ℕ, ◌+◌, ◌-◌, ◌*◌, ◌/◌, ◌%◌, Option, none, some, length, if◌then◌else◌, ◌==◌}
use libss.Isup.Bytes.{Mem, store}
use libss.Isup.Digits.{put_chars}
use libss.Isup.Call.{
  Charge, GenericAddress, Lspi, Call, Ss7, Written, ◌>>=◌, is_empty, fits, get_text, put_text,
}
use libss.Isup.Numbers.{top}

unfoldable pub charge_number_receive : Ss7 → Call → ℕ → Mem → ℕ → ℕ → Option (Call × ℕ)
charge_number_receive ss7 c messagetype m p len = do
  s ← get_text m (p + 2) (len - 2) (top (m p))
  let n : Charge = record { number = s; nai = m p % 128; num_plan = m (p + 1) / 16 % 8 }
  some (record c { charge = n }, len)

unfoldable pub charge_number_transmit : Ss7 → Call → ℕ → Mem → ℕ → ℕ → Option Written
charge_number_transmit ss7 c messagetype m p len =
    if is_empty c.charge.number then some (record { call = c; buf = m; size = 0 }) else do
      (m₀, datalen, oddeven) ← put_text m (p + 2) c.charge.number
      let m₁ = store m₀ p (bit_or (oddeven * 128) c.charge.nai)
      some (record { call = c; buf = store m₁ (p + 1) 16; size = datalen + 2 })

unfoldable pub generic_address_receive : Ss7 → Call → ℕ → Mem → ℕ → ℕ → Option (Call × ℕ)
generic_address_receive ss7 c messagetype m p len = do
  s ← get_text m (p + 3) (len - 3) (top (m (p + 1)))
  let a : GenericAddress = record {
    number = s;
    nai = m (p + 1) % 128;
    pres_ind = m (p + 2) / 4 % 4;
    num_plan = m (p + 2) / 16 % 8;
    type = m p;
  }
  some (record c { gen_add = a }, len)

unfoldable pub generic_address_transmit : Ss7 → Call → ℕ → Mem → ℕ → ℕ → Option Written
generic_address_transmit ss7 c messagetype m p len =
    if is_empty c.gen_add.number then some (record { call = c; buf = m; size = 0 }) else do
      (m₀, datalen, oddeven) ← put_text m (p + 3) c.gen_add.number
      let m₁ = store m₀ p c.gen_add.type
      let m₂ = store m₁ (p + 1) (bit_or (oddeven * 128) c.gen_add.nai)
      let m₃ = store m₂ (p + 2) (c.gen_add.num_plan * 16 + c.gen_add.pres_ind % 4 * 4)
      some (record { call = c; buf = m₃; size = datalen + 3 })

unfoldable pub generic_digits_receive : Ss7 → Call → ℕ → Mem → ℕ → ℕ → Option (Call × ℕ)
generic_digits_receive ss7 c messagetype m p len = do
  let scheme = m p / 32 % 8
  s ← get_text m (p + 1) (len - 1) scheme
  some (record c { gen_dig = record { number = s; type = m p % 32; scheme = scheme } }, len)

-- Type 3 is sent as it is, all others as digits.
unfoldable pub generic_digits_transmit : Ss7 → Call → ℕ → Mem → ℕ → ℕ → Option Written
unfolding put_chars
generic_digits_transmit ss7 c messagetype m p len =
    let d = c.gen_dig in
    if is_empty d.number
    then some (record { call = c; buf = m; size = 0 })
    else if d.type == 3
    then if fits d.number
      then some (record {
        call = c;
        buf = store (put_chars m (p + 1) d.number) p (bit_or (d.scheme * 32) d.type);
        size = length d.number + 1;
      })
      else none
    else do
      (m₀, datalen, oddeven) ← put_text m (p + 1) d.number
      some
          (record { call = c; buf = store m₀ p (bit_or (oddeven * 32) d.type); size = datalen + 1 })

unfoldable pub jip_receive : Ss7 → Call → ℕ → Mem → ℕ → ℕ → Option (Call × ℕ)
jip_receive ss7 c messagetype m p len = do
  s ← get_text m p len 0
  some (record c { jip_number = s }, len)

unfoldable pub jip_transmit : Ss7 → Call → ℕ → Mem → ℕ → ℕ → Option Written
jip_transmit ss7 c messagetype m p len =
    if is_empty c.jip_number then some (record { call = c; buf = m; size = 0 }) else do
      (m₀, datalen, oddeven) ← put_text m p c.jip_number
      some (record { call = c; buf = m₀; size = datalen })

unfoldable pub lspi_receive : Ss7 → Call → ℕ → Mem → ℕ → ℕ → Option (Call × ℕ)
lspi_receive ss7 c messagetype m p len = do
  let scheme = m p / 32 % 8
  s ← get_text m (p + 2) (len - 2) scheme
  let l : Lspi = record { type = m p % 32; scheme = scheme; context = m (p + 1) % 16; ident = s }
  some (record c { lspi = l }, len)

-- Only the first byte is ever sent.
unfoldable pub lspi_transmit : Ss7 → Call → ℕ → Mem → ℕ → ℕ → Option Written
lspi_transmit ss7 c messagetype m p len =
    if c.lspi.scheme == 0
    then some (record { call = c; buf = m; size = 0 })
    else some
        (record { call = c; buf = store m p (bit_or (c.lspi.scheme * 32) c.lspi.type); size = 1 })
