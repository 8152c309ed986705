-- ===== src/Isup/Numbers/Roundtrip.antt =====
-- The number parameters of a message, from the call that sends it to the call that receives it.
use libss.Base.{
  ℕ, ◌+◌, ◌≡◌, refl, inl, inr, true, false, Option, none, some, [], arith, ◌==◌, if◌then◌else◌,
  Bool-cases,
}
use libss.Isup.Bytes.{Mem}
use libss.Isup.Digits.Roundtrip.{IsZeroFrom}
use libss.Isup.Call.{Number, Call, Ss7, Written, is_empty, Arrives, ◌>>=◌}
use libss.Isup.Numbers.{
  addr_not_available, read_number, write_head, calling_party_num_receive,
  calling_party_num_transmit, write_number, original_called_num_receive,
  original_called_num_transmit, redirecting_number_receive, redirecting_number_transmit,
}
use libss.Isup.Numbers.Back.{
  IsNumber, canonical_number, put_buf, put_len, put_odd, put_text-some, read_number-write_head,
  read_number-empty,
}

-- The number that the other side reads: without an address, only the two indicators.
abbrev pub sent_calling : Number → Option Number
sent_calling n =
    if n.presentation_ind == addr_not_available
    then some (record n { num = []; nai = 0 })
    else if is_empty n.num
    then none
    else some (canonical_number n)

abbrev pub with_calling : Call → Option Number → Option Call
with_calling c none = none
with_calling c (some n) = some (record c { calling = n })

module _ (ss7 ss7' : Ss7) (c c' : Call) (mt : ℕ) (m : Mem) (p len : ℕ)
    (z : IsZeroFrom m (p + 2)) where
  calling_unavailable :
      IsNumber c.calling
      → (c.calling.presentation_ind == addr_not_available) ≡ true
      → Arrives
          (calling_party_num_transmit ss7 c mt m p len)
          m
          (λ b n. calling_party_num_receive ss7' c' mt b p n)
          (some (record c' { calling = record c.calling { num = []; nai = 0 } }))
  unfolding calling_party_num_transmit calling_party_num_receive
  calling_unavailable v e = (
    record {
      call = record c { calling = record c.calling { nai = 0 } };
      buf = write_head m p (record c.calling { nai = 0 }) 0 0;
      size = 2;
    },
    rw e,
    omega arith,
    rw (
        read_number-empty m p (record c.calling { nai = 0 })
          (record {
            field = v.field;
            nai = omega arith;
            presentation = v.presentation;
            screening = v.screening;
          })),
  )

  -- The call and the buffer after a number is written with `plan` above its indicators.
  abbrev numbered : Number → ℕ → Written
  numbered n plan = record {
    call = c;
    buf = write_head (put_buf m (p + 2) n.num) p n (put_odd m (p + 2) n.num) plan;
    size = put_len m (p + 2) n.num + 2;
  }

  calling_present :
      IsNumber c.calling
      → (c.calling.presentation_ind == addr_not_available) ≡ false
      → is_empty c.calling.num ≡ false
      → Arrives
          (calling_party_num_transmit ss7 c mt m p len)
          m
          (λ b n. calling_party_num_receive ss7' c' mt b p n)
          (some (record c' { calling = canonical_number c.calling }))
  unfolding calling_party_num_transmit calling_party_num_receive
  calling_present v e f = (
    numbered c.calling 16,
    rw (e, f, put_text-some m (p + 2) c.calling.num (v.field)),
    omega arith,
    rw (read_number-write_head m p c.calling 16 z v (inr refl)),
  )

  calling_absent :
      (c.calling.presentation_ind == addr_not_available) ≡ false
      → is_empty c.calling.num ≡ true
      → Arrives
          (calling_party_num_transmit ss7 c mt m p len)
          m
          (λ b n. calling_party_num_receive ss7' c' mt b p n)
          none
  unfolding calling_party_num_transmit
  calling_absent e f = (record { call = c; buf = m; size = 0 }, rw (e, f), refl, refl)

  -- In a zeroed buffer, a calling number with indicators of their widths is left out where it is
  -- empty, is sent with the indicators alone where its address is marked as not available, and
  -- otherwise arrives with the same indicators and its text in canonical form.
  pub calling_party_num-Arrives :
      IsNumber c.calling
      → Arrives
          (calling_party_num_transmit ss7 c mt m p len)
          m
          (λ b n. calling_party_num_receive ss7' c' mt b p n)
          (with_calling c' (sent_calling c.calling))
  calling_party_num-Arrives v =
      elim (Bool-cases (c.calling.presentation_ind == addr_not_available)) [
        | inl e ↦ rw e (calling_unavailable v e)
        | inr e ↦ elim (Bool-cases (is_empty c.calling.num)) [
          | inl f ↦ rw (e, f) (calling_absent e f)
          | inr f ↦ rw (e, f) (calling_present v e f)
        ]
      ]

  module _ (n : Number) (set : Number → Call) where
    write_number-Arrives :
        IsNumber n
        → Arrives
            (write_number c n m p)
            m
            (λ b k. read_number b p k >>= λ r. some (set r, k))
            (if is_empty n.num then none else some (set (canonical_number n)))
    unfolding write_number
    write_number-Arrives v = elim (Bool-cases (is_empty n.num)) [
      | inl e ↦ rw e (record { call = c; buf = m; size = 0 }, refl, refl, refl)
      | inr e ↦ rw e (
        numbered n 16,
        rw (put_text-some m (p + 2) n.num (v.field)),
        omega arith,
        rw (read_number-write_head m p n 16 z v (inr refl)),
      )
    ]

  -- In a zeroed buffer, the redirecting and the originally called number, with indicators of their
  -- widths, are left out where they are empty, and otherwise arrive with the same indicators and
  -- their text in canonical form.
  pub diverted_numbers-Arrive :
      IsNumber c.redirecting
      → IsNumber c.orig_called
      → Arrives
          (redirecting_number_transmit ss7 c mt m p len)
          m
          (λ b n. redirecting_number_receive ss7' c' mt b p n)
          (if is_empty c.redirecting.num
            then none
            else some (record c' { redirecting = canonical_number c.redirecting }))
        × Arrives
            (original_called_num_transmit ss7 c mt m p len)
            m
            (λ b n. original_called_num_receive ss7' c' mt b p n)
            (if is_empty c.orig_called.num
              then none
              else some (record c' { orig_called = canonical_number c.orig_called }))
  unfolding redirecting_number_transmit redirecting_number_receive original_called_num_transmit
      original_called_num_receive
  diverted_numbers-Arrive v o = (
    write_number-Arrives c.redirecting (λ r. record c' { redirecting = r }) v,
    write_number-Arrives c.orig_called (λ r. record c' { orig_called = r }) o,
  )
