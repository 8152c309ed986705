-- ===== src/Isup/Indicators/Roundtrip.antt =====
-- Parameters of fixed layout, from the call that sends them to the call that receives them.
use Prim.Native.Nat.{bit_or}
use libss.Base.{
  ℕ, ◌+◌, ◌*◌, ◌/◌, ◌%◌, ◌<◌, ◌≡◌, refl, inl, inr, true, false, ◌&&◌, none, some, arith, ◌==◌,
  if◌then◌else◌, Bool-cases,
}
use libss.Isup.Bytes.{
  Mem, store, all_below, both_below, by_table_pair, or_top, store_self, store_first, store_second,
}
use libss.Isup.Call.{Cause, Call, Ss7, Arrives}
use libss.Isup.Indicators.{
  cause_receive, cause_transmit, opt_forward_call_ind_receive, opt_forward_call_ind_transmit,
  nature_of_connection_ind_receive, nature_of_connection_ind_transmit,
}

-- Bit 7, two bits and four bits.
pub or_location :
    (code loc : ℕ)
    → code < 4
    → loc < 16
    → bit_or (bit_or 0x80 (code * 32)) loc ≡ 128 + code * 32 + loc
unfolding all_below both_below
or_location =
    by_table_pair 4 16 (λ code loc. bit_or (bit_or 0x80 (code * 32)) loc)
      (λ code loc. 128 + code * 32 + loc) refl

abbrev pub flag : ℕ → ℕ
flag n = if n == 0 then 0 else 1

-- The values have the widths of their fields in the message.
pub record IsCause (x : Cause) : Type 0 where
  pub code : x.code < 4
  pub loc : x.loc < 16
  pub cause : x.cause < 128

module _ (ss7 ss7' : Ss7) (c c' : Call) (mt : ℕ) (m : Mem) (p len : ℕ) where
  pub cause_back :
      (b : Mem)
      → b p ≡ 128 + c.cause.code * 32 + c.cause.loc
      → b (p + 1) ≡ 128 + c.cause.cause
      → IsCause c.cause
      → cause_receive ss7' c' mt b p 2 ≡ some (record c' { cause = c.cause }, 2)
  unfolding cause_receive
  cause_back b e f v = rw (e, f, loc, code, cause) refl
    where
      loc : (128 + c.cause.code * 32 + c.cause.loc) % 16 ≡ c.cause.loc
      loc = omega (arith, v.loc)

      code : (128 + c.cause.code * 32 + c.cause.loc) / 32 % 4 ≡ c.cause.code
      code = omega (arith, v.loc, v.code)

      cause : (128 + c.cause.cause) % 128 ≡ c.cause.cause
      cause = omega (arith, v.cause)

  -- A release cause with values of their widths is always sent, in two bytes, and arrives as it is.
  pub cause-Arrives :
      IsCause c.cause
      → Arrives
          (cause_transmit ss7 c mt m p len)
          m
          (λ b n. cause_receive ss7' c' mt b p n)
          (some (record c' { cause = c.cause }))
  unfolding cause_transmit
  cause-Arrives v = (_, refl, omega arith, cause_back _ first second v)
    where
      first :
          store
            (store m p (bit_or (bit_or 0x80 (c.cause.code * 32)) c.cause.loc))
            (p + 1)
            (bit_or 0x80 c.cause.cause)
            p
          ≡ 128 + c.cause.code * 32 + c.cause.loc
      first =
          store_first m p _ _ _ (or_location c.cause.code c.cause.loc (v.code) (v.loc))
            (omega (arith, v.code, v.loc))

      second :
          store
            (store m p (bit_or (bit_or 0x80 (c.cause.code * 32)) c.cause.loc))
            (p + 1)
            (bit_or 0x80 c.cause.cause)
            (p + 1)
          ≡ 128 + c.cause.cause
      second =
          store_second _ p _ _ (or_top 1 c.cause.cause (omega arith) (v.cause))
            (omega (arith, v.cause))

  forward_absent :
      (c.col_req == 0 && c.cug.indicator == 0) ≡ true
      → Arrives
          (opt_forward_call_ind_transmit ss7 c mt m p len)
          m
          (λ b n. opt_forward_call_ind_receive ss7' c' mt b p n)
          none
  unfolding opt_forward_call_ind_transmit
  forward_absent e = (record { call = c; buf = m; size = 0 }, rw e, refl, refl)

  forward_back :
      (b : Mem) (i r : ℕ)
      → b p ≡ i + r * 128
      → i < 4
      → r < 2
      → opt_forward_call_ind_receive ss7' c' mt b p 1
        ≡ some (record c' { cug = record c'.cug { indicator = i }; col_req = r }, 1)
  unfolding opt_forward_call_ind_receive
  forward_back b i r e hi hr = rw (e, low, high)
    where
      low : (i + r * 128) % 4 ≡ i
      low = omega arith

      high : (i + r * 128) / 128 ≡ r
      high = omega arith

  forward_present :
      c.cug.indicator < 4
      → c.col_req < 2
      → (c.col_req == 0 && c.cug.indicator == 0) ≡ false
      → Arrives
          (opt_forward_call_ind_transmit ss7 c mt m p len)
          m
          (λ b n. opt_forward_call_ind_receive ss7' c' mt b p n)
          (some (record c' {
            cug = record c'.cug { indicator = c.cug.indicator };
            col_req = c.col_req;
          }))
  unfolding opt_forward_call_ind_transmit
  forward_present hi hc e = (
    record { call = c; buf = store m p (c.cug.indicator % 4 + c.col_req * 128); size = 1 },
    rw e,
    omega arith,
    forward_back (store m p (c.cug.indicator % 4 + c.col_req * 128)) c.cug.indicator c.col_req
        (store_self m p _ _ (omega arith) (omega arith)) hi hc,
  )

  -- The request for the connected number and the closed user group, with values of their widths,
  -- are left out where both are 0, and otherwise arrive in one byte.
  pub opt_forward_call_ind-Arrives :
      c.cug.indicator < 4
      → c.col_req < 2
      → Arrives
          (opt_forward_call_ind_transmit ss7 c mt m p len)
          m
          (λ b n. opt_forward_call_ind_receive ss7' c' mt b p n)
          (if c.col_req == 0 && c.cug.indicator == 0
            then none
            else some (record c' {
              cug = record c'.cug { indicator = c.cug.indicator };
              col_req = c.col_req;
            }))
  opt_forward_call_ind-Arrives hi hc = elim (Bool-cases (c.col_req == 0 && c.cug.indicator == 0)) [
    | inl e ↦ rw e (forward_absent e)
    | inr e ↦ rw e (forward_present hi hc e)
  ]

  nature_back :
      (b : Mem) (x y z : ℕ)
      → b p ≡ x * 4 + y * 8 + z * 16
      → x < 2
      → y < 2
      → z < 2
      → nature_of_connection_ind_receive ss7' c' mt b p 1
        ≡ some (
          record c' {
            cot = record c'.cot { check_required = x; performed_on_previous_cic = y };
            echocontrol_ind = z;
          },
          1,
        )
  unfolding nature_of_connection_ind_receive
  nature_back b x y z e hx hy hz = rw (e, one, two, three)
    where
      one : (x * 4 + y * 8 + z * 16) / 4 % 4 % 2 ≡ x
      one = omega arith

      two : (x * 4 + y * 8 + z * 16) / 4 % 4 / 2 % 2 ≡ y
      two = omega arith

      three : (x * 4 + y * 8 + z * 16) / 16 % 2 ≡ z
      three = omega arith

  -- The flags of the connection arrive as 0 and 1; the sender's own echo control becomes the
  -- receiver's record of the other side's.
  pub nature_of_connection_ind-Arrives :
      Arrives
        (nature_of_connection_ind_transmit ss7 c mt m p len)
        m
        (λ b n. nature_of_connection_ind_receive ss7' c' mt b p n)
        (some (record c' {
          cot = record c'.cot {
            check_required = flag c.cot.check_required;
            performed_on_previous_cic = flag c.cot.performed_on_previous_cic;
          };
          echocontrol_ind = flag c.local_echocontrol_ind;
        }))
  unfolding nature_of_connection_ind_transmit
  nature_of_connection_ind-Arrives = (
    _,
    refl,
    omega arith,
    nature_back _ (flag c.cot.check_required) (flag c.cot.performed_on_previous_cic)
        (flag c.local_echocontrol_ind) (store_self m p _ _ (ground arith) (ground arith))
        (ground arith) (ground arith) (ground arith),
  )
