-- ===== src/Isup/Numbers/Called.antt =====
-- The connected and the called number.
use libss.Base.{
  ℕ, ◌+◌, ◌-◌, ◌%◌, ◌<◌, ◌≡◌, refl, ◌∙◌, inl, inr, true, false, none, some, List, [], arith, ◌==◌,
  if◌then◌else◌, map, Bool-cases,
}
use libss.Isup.Bytes.{Mem, store}
use libss.Isup.Digits.Chars.{canonical}
use libss.Isup.Digits.{isup_get_number}
use libss.Isup.Digits.Roundtrip.{IsZeroFrom, isup_get_number-isup_put_number}
use libss.Isup.Call.{Number, Call, Ss7, Written, is_empty, get_text, Arrives}
use libss.Isup.Numbers.{
  addr_not_available, top, write_head, called_party_num_receive, called_party_num_transmit,
  connected_num_receive, connected_num_transmit,
}
use libss.Isup.Numbers.Back.{
  IsField, IsNumber, canonical_number, put_buf, put_len, put_odd, put_odd-lt, put_text-some,
  get_text-canonical, isup_get_number-store, read_number-write_head, read_number-empty,
}

-- The number that the other side reads.
abbrev pub sent_connected : Number → Number
sent_connected n =
    if is_empty n.num
    then record n { num = []; presentation_ind = addr_not_available }
    else canonical_number n

module _ (ss7 ss7' : Ss7) (c c' : Call) (mt : ℕ) (m : Mem) (p len : ℕ)
    (z : IsZeroFrom m (p + 2)) where
  connected_empty :
      IsNumber c.connected
      → (c.col_req == 0) ≡ false
      → is_empty c.connected.num ≡ true
      → Arrives
          (connected_num_transmit ss7 c mt m p len)
          m
          (λ b n. connected_num_receive ss7' c' mt b p n)
          (some (record c' {
            connected = record c.connected { num = []; presentation_ind = addr_not_available };
          }))
  unfolding connected_num_transmit connected_num_receive
  connected_empty v e f = (
    record {
      call = record c { connected = record c.connected { presentation_ind = addr_not_available } };
      buf = write_head m p (record c.connected { presentation_ind = addr_not_available }) 0 0;
      size = 2;
    },
    rw (e, f),
    omega arith,
    rw (
        read_number-empty m p (record c.connected { presentation_ind = addr_not_available })
          (record {
            field = v.field;
            nai = v.nai;
            presentation = omega arith;
            screening = v.screening;
          })),
  )

  connected_present :
      IsNumber c.connected
      → (c.col_req == 0) ≡ false
      → is_empty c.connected.num ≡ false
      → Arrives
          (connected_num_transmit ss7 c mt m p len)
          m
          (λ b n. connected_num_receive ss7' c' mt b p n)
          (some (record c' { connected = canonical_number c.connected }))
  unfolding connected_num_transmit connected_num_receive
  connected_present v e f = (
    record {
      call = c;
      buf =
          write_head (put_buf m (p + 2) c.connected.num) p c.connected
            (put_odd m (p + 2) c.connected.num) 0;
      size = put_len m (p + 2) c.connected.num + 2;
    },
    rw (e, f, put_text-some m (p + 2) c.connected.num (v.field)),
    omega arith,
    rw (read_number-write_head m p c.connected 0 z v (inl refl)),
  )

  connected_absent :
      (c.col_req == 0) ≡ true
      → Arrives
          (connected_num_transmit ss7 c mt m p len)
          m
          (λ b n. connected_num_receive ss7' c' mt b p n)
          none
  unfolding connected_num_transmit
  connected_absent e = (record { call = c; buf = m; size = 0 }, rw e, refl, refl)

  -- In a zeroed buffer, a connected number with indicators of their widths is left out where it was
  -- not asked for; otherwise it arrives with the same indicators and its text in canonical form,
  -- but as not available where it is empty.
  pub connected_num-Arrives :
      IsNumber c.connected
      → Arrives
          (connected_num_transmit ss7 c mt m p len)
          m
          (λ b n. connected_num_receive ss7' c' mt b p n)
          (if c.col_req == 0
            then none
            else some (record c' { connected = sent_connected c.connected }))
  connected_num-Arrives v = elim (Bool-cases (c.col_req == 0)) [
    | inl e ↦ rw e (connected_absent e)
    | inr e ↦ elim (Bool-cases (is_empty c.connected.num)) [
      | inl f ↦ rw (e, f) (connected_empty v e f)
      | inr f ↦ rw (e, f) (connected_present v e f)
    ]
  ]

-- The three bytes that are written over the number.
called_bytes : Mem → ℕ → ℕ → ℕ → Mem
called_bytes m₀ p nai odd =
    let m₁ = store m₀ p (nai % 128) in
    let m₂ = if odd == 0 then m₁ else store m₁ p (m₁ p + 128) in store m₂ (p + 1) 16

called_top : (m₀ : Mem) (p nai odd : ℕ) → odd < 2 → top (called_bytes m₀ p nai odd p) ≡ odd
unfolding called_bytes store
called_top m₀ p nai odd h = ground arith

called_nai_byte : (m₀ : Mem) (p nai odd : ℕ) → nai < 128 → called_bytes m₀ p nai odd p % 128 ≡ nai
unfolding called_bytes store
called_nai_byte m₀ p nai odd h = ground arith

called_text :
    (m₀ : Mem) (p nai odd n k : ℕ)
    → isup_get_number (called_bytes m₀ p nai odd) (p + 2) n k ≡ isup_get_number m₀ (p + 2) n k
unfolding called_bytes
called_text m₀ p nai odd n k = elim (Bool-cases (odd == 0)) [
  | inl e ↦ rw e (
      isup_get_number-store (store m₀ p (nai % 128)) (p + 2) n k (p + 1) 16 (omega arith)
      ∙ isup_get_number-store m₀ (p + 2) n k p (nai % 128) (omega arith))
  | inr e ↦ rw e (
      isup_get_number-store (store m₁ p (m₁ p + 128)) (p + 2) n k (p + 1) 16 (omega arith)
      ∙ isup_get_number-store m₁ (p + 2) n k p (m₁ p + 128) (omega arith)
      ∙ isup_get_number-store m₀ (p + 2) n k p (nai % 128) (omega arith))
]
  where
    m₁ : Mem
    m₁ = store m₀ p (nai % 128)

module _ (ss7 ss7' : Ss7) (c c' : Call) (mt : ℕ) (m : Mem) (p len : ℕ) where
  abbrev called_sent : Written
  called_sent = record {
    call = c;
    buf =
        called_bytes (put_buf m (p + 2) c.called_party_num) p c.called_nai
          (put_odd m (p + 2) c.called_party_num);
    size = put_len m (p + 2) c.called_party_num + 2;
  }

  called_transmit :
      IsField c.called_party_num → called_party_num_transmit ss7 c mt m p len ≡ some called_sent
  unfolding called_party_num_transmit called_bytes
  called_transmit f = rw (put_text-some m (p + 2) c.called_party_num f)

  abbrev arrived : Call
  arrived = record c' {
    called_party_num = map canonical c.called_party_num;
    called_nai = c.called_nai;
  }

  called_read :
      IsZeroFrom m (p + 2)
      → IsField c.called_party_num
      → get_text called_sent.buf
          (p + 2)
          (put_len m (p + 2) c.called_party_num)
          (put_odd m (p + 2) c.called_party_num)
        ≡ some (map canonical c.called_party_num)
  called_read z f =
      get_text-canonical called_sent.buf (p + 2) (put_len m (p + 2) c.called_party_num)
        (put_odd m (p + 2) c.called_party_num) c.called_party_num f
        (called_text (put_buf m (p + 2) c.called_party_num) p c.called_nai
            (put_odd m (p + 2) c.called_party_num) (put_len m (p + 2) c.called_party_num)
            (put_odd m (p + 2) c.called_party_num)
          ∙ isup_get_number-isup_put_number m (p + 2) c.called_party_num z (f.text))

  called_receive :
      (b : Mem) (n odd nai : ℕ) (s : List ℕ)
      → odd < 2
      → top (b p) ≡ odd
      → b p % 128 ≡ nai
      → get_text b (p + 2) n odd ≡ some s
      → called_party_num_receive ss7' c' mt b p (n + 2)
        ≡ some (record c' { called_party_num = s; called_nai = nai }, n + 2)
  unfolding called_party_num_receive
  called_receive b n odd nai s ho e f g = rw (e, same_odd, two_more, g, f)
    where
      two_more : n + 2 - 2 ≡ n
      two_more = omega arith

      same_odd : (if odd == 1 then 1 else 0) ≡ odd
      same_odd = ground arith

  -- In a zeroed buffer, the called number is always sent, and arrives with its nature of address and
  -- its text in canonical form.
  pub called_party_num-Arrives :
      IsZeroFrom m (p + 2)
      → IsField c.called_party_num
      → c.called_nai < 128
      → Arrives
          (called_party_num_transmit ss7 c mt m p len)
          m
          (λ b n. called_party_num_receive ss7' c' mt b p n)
          (some arrived)
  called_party_num-Arrives z f h = (
    called_sent,
    called_transmit f,
    omega arith,
    called_receive called_sent.buf (put_len m (p + 2) c.called_party_num)
        (put_odd m (p + 2) c.called_party_num) c.called_nai (map canonical c.called_party_num)
        (put_odd-lt m (p + 2) c.called_party_num)
        (called_top (put_buf m (p + 2) c.called_party_num) p c.called_nai
          (put_odd m (p + 2) c.called_party_num) (put_odd-lt m (p + 2) c.called_party_num))
        (called_nai_byte (put_buf m (p + 2) c.called_party_num) p c.called_nai
          (put_odd m (p + 2) c.called_party_num) h)
        (called_read z f),
  )
