-- ===== src/Isup/Fields/Interlock.antt =====
-- The interlock code of a closed user group.
use libss.Base.{
  ℕ, ◌+◌, ◌*◌, ◌/◌, ◌%◌, ◌<◌, ◌≡◌, refl, inl, inr, true, false, none, some, List, [], ◌∷◌, arith,
  if◌then◌else◌, Bool-cases, get_or,
}
use libss.Isup.Bytes.{Mem, store}
use libss.Isup.Digits.{char2digit, digit2char}
use libss.Isup.Digits.Chars.{canonical, char2digit-lt, digit2char-char2digit}
use libss.Isup.Call.{Call, Ss7, Arrives}
use libss.Isup.Fields.{cug_interlock_code_receive, cug_interlock_code_transmit, in_user_group}

-- Two digits in a byte.
high_digit :
    (a b : ℕ) → a < 256 → digit2char ((char2digit a * 16 + char2digit b) / 16) ≡ canonical a
high_digit a b h = rw high (digit2char-char2digit a h)
  where
    high : (char2digit a * 16 + char2digit b) / 16 ≡ char2digit a
    high = omega (arith, char2digit-lt b)

low_digit : (a b : ℕ) → b < 256 → digit2char ((char2digit a * 16 + char2digit b) % 16) ≡ canonical b
low_digit a b h = rw low (digit2char-char2digit b h)
  where
    low : (char2digit a * 16 + char2digit b) % 16 ≡ char2digit b
    low = omega (arith, char2digit-lt b)

module _ (m : Mem) (p x y code : ℕ) where
  abbrev code_bytes : Mem
  code_bytes =
      store (store (store (store m p x) (p + 1) y) (p + 2) (code / 256)) (p + 3) (code % 256)

  code_first : x < 256 → code_bytes p ≡ x
  unfolding store
  code_first h = ground arith

  code_second : y < 256 → code_bytes (p + 1) ≡ y
  unfolding store
  code_second h = ground arith

  code_code : code < 65536 → code_bytes (p + 2) * 256 + code_bytes (p + 3) ≡ code
  unfolding store
  code_code h = ground arith

-- The four characters, each below 256.
abbrev pub ni_at : Call → ℕ → ℕ
ni_at c i = get_or c.cug.interlock_ni i 0

abbrev pub canonical_ni : Call → List ℕ
canonical_ni c =
    canonical (ni_at c 0)
    ∷ canonical (ni_at c 1)
    ∷ canonical (ni_at c 2)
    ∷ canonical (ni_at c 3)
    ∷ []

module _ (ss7 ss7' : Ss7) (c c' : Call) (mt : ℕ) (m : Mem) (p len : ℕ) where
  abbrev pair_at : ℕ → ℕ → ℕ
  pair_at i j = char2digit (ni_at c i) * 16 + char2digit (ni_at c j)

  pair-lt : (i j : ℕ) → pair_at i j < 256
  pair-lt i j = omega (arith, char2digit-lt (ni_at c i), char2digit-lt (ni_at c j))

  cug_present :
      in_user_group c.cug.indicator ≡ true
      → ((i : ℕ) → ni_at c i < 256)
      → c.cug.interlock_code < 65536
      → Arrives
          (cug_interlock_code_transmit ss7 c mt m p len)
          m
          (λ b n. cug_interlock_code_receive ss7' c' mt b p n)
          (some (record c' {
            cug = record c'.cug {
              interlock_ni = canonical_ni c;
              interlock_code = c.cug.interlock_code;
            };
          }))
  unfolding cug_interlock_code_transmit cug_interlock_code_receive
  cug_present e t h = (
    record {
      call = c;
      buf = code_bytes m p (pair_at 0 1) (pair_at 2 3) c.cug.interlock_code;
      size = 4;
    },
    rw e,
    omega arith,
    rw
        (
          code_first m p (pair_at 0 1) (pair_at 2 3) c.cug.interlock_code (pair-lt 0 1),
          code_second m p (pair_at 0 1) (pair_at 2 3) c.cug.interlock_code (pair-lt 2 3),
          code_code m p (pair_at 0 1) (pair_at 2 3) c.cug.interlock_code h,
          high_digit (ni_at c 0) (ni_at c 1) (t 0),
          low_digit (ni_at c 0) (ni_at c 1) (t 1),
          high_digit (ni_at c 2) (ni_at c 3) (t 2),
          low_digit (ni_at c 2) (ni_at c 3) (t 3),
        )
        refl,
  )

  cug_absent :
      in_user_group c.cug.indicator ≡ false
      → Arrives
          (cug_interlock_code_transmit ss7 c mt m p len)
          m
          (λ b n. cug_interlock_code_receive ss7' c' mt b p n)
          none
  unfolding cug_interlock_code_transmit
  cug_absent e = (record { call = c; buf = m; size = 0 }, rw e, refl, refl)

  -- The interlock code of 16 bits and the network identity, of characters, are sent exactly for a
  -- call of a closed user group; they arrive with the identity in canonical form.
  pub cug_interlock_code-Arrives :
      ((i : ℕ) → ni_at c i < 256)
      → c.cug.interlock_code < 65536
      → Arrives
          (cug_interlock_code_transmit ss7 c mt m p len)
          m
          (λ b n. cug_interlock_code_receive ss7' c' mt b p n)
          (if in_user_group c.cug.indicator
            then some (record c' {
              cug = record c'.cug {
                interlock_ni = canonical_ni c;
                interlock_code = c.cug.interlock_code;
              };
            })
            else none)
  cug_interlock_code-Arrives t h = elim (Bool-cases (in_user_group c.cug.indicator)) [
    | inl e ↦ rw e (cug_present e t h)
    | inr e ↦ rw e (cug_absent e)
  ]
