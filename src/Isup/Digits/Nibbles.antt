-- ===== src/Isup/Digits/Nibbles.antt =====
-- The loop of `isup_put_number`, half a byte at a time.
use libss.Base.{
  ℕ, ◌+◌, ◌*◌, ◌/◌, ◌%◌, ◌<◌, ◌≡◌, refl, ◌∙◌, inl, inr, ◌≢◌, true, false, List, [], ◌∷◌, arith,
  ◌==◌, if◌then◌else◌, Bool-cases,
}
use libss.Isup.Bytes.{Mem, store, or_at, or_zero, or_nibbles}
use libss.Isup.Digits.{char2digit, put_from}

abbrev pub nibble : Mem → ℕ → ℕ → ℕ
nibble m dest k = m (dest + k / 2) / (if k % 2 == 0 then 1 else 16) % 16

-- One round of the loop.
unfoldable pub round : Mem → ℕ → ℕ → ℕ → Mem
round m dest i d = or_at m (dest + i / 2) (if i % 2 == 0 then d else d * 16)

-- Nothing is written from half-byte `i` on.
pub record IsFree (m : Mem) (dest i : ℕ) : Type 0 where
  pub here : m (dest + i / 2) < (if i % 2 == 0 then 1 else 16)
  pub after : (j : ℕ) → i / 2 < j → m (dest + j) ≡ 0

round_even :
    (m : Mem) (dest i d : ℕ)
    → d < 16
    → (i % 2 == 0) ≡ true
    → m (dest + i / 2) < 1
    → round m dest i d (dest + i / 2) ≡ d
unfolding round or_at store
round_even m dest i d hd even h = rw (even, zero_there) (ground (arith, or_zero d))
  where
    zero_there : m (dest + i / 2) ≡ 0
    zero_there = omega arith

round_odd :
    (m : Mem) (dest i d : ℕ)
    → d < 16
    → (i % 2 == 0) ≡ false
    → m (dest + i / 2) < 16
    → round m dest i d (dest + i / 2) ≡ m (dest + i / 2) + d * 16
unfolding round or_at store
round_odd m dest i d hd odd h = ground (arith, or_nibbles (m (dest + i / 2)) d)

round_else : (m : Mem) (dest i d j : ℕ) → j ≢ dest + i / 2 → round m dest i d j ≡ m j
unfolding round or_at store
round_else m dest i d j h = ground arith

module _ (m : Mem) (dest i d : ℕ) (hd : d < 16) (v : IsFree m dest i) where
  here_even : (i % 2 == 0) ≡ true → m (dest + i / 2) < 1
  here_even e = rw e at (v.here)

  here_odd : (i % 2 == 0) ≡ false → m (dest + i / 2) < 16
  here_odd e = rw e at (v.here)

  free_after : (j : ℕ) → i / 2 < j → round m dest i d (dest + j) ≡ 0
  free_after j h = round_else m dest i d (dest + j) (omega arith) ∙ v.after j h

  pub round-IsFree : IsFree (round m dest i d) dest (i + 1)
  round-IsFree = elim (Bool-cases (i % 2 == 0)) [
    | inl e ↦
        let half : (i + 1) / 2 ≡ i / 2 = ground (arith) in
        let odd : ((i + 1) % 2 == 0) ≡ false = ground (arith) in
        record {
          here = rw (half, odd, round_even m dest i d hd e (here_even e)) hd;
          after = λ j h. free_after j (omega (arith, half));
        }
    | inr e ↦
        let half : (i + 1) / 2 ≡ i / 2 + 1 = ground (arith) in
        let even : ((i + 1) % 2 == 0) ≡ true = ground (arith) in
        record {
          here = rw (half, even, free_after (i / 2 + 1) (omega arith)) (omega arith);
          after = λ j h. free_after j (omega (arith, half));
        }
  ]

  pub nibble-round_self : nibble (round m dest i d) dest i ≡ d
  nibble-round_self = elim (Bool-cases (i % 2 == 0)) [
    | inl e ↦ rw (round_even m dest i d hd e (here_even e), e) (omega arith)
    | inr e ↦ rw (round_odd m dest i d hd e (here_odd e), e) (omega (arith, here_odd e))
  ]

  same_byte :
      (k : ℕ) → k + 1 ≡ i → k / 2 ≡ i / 2 → nibble (round m dest i d) dest k ≡ nibble m dest k
  same_byte k next same =
      let odd : (i % 2 == 0) ≡ false = ground arith in
      let even : (k % 2 == 0) ≡ true = ground arith in
      rw (same, round_odd m dest i d hd odd (here_odd odd), even) (omega (arith, here_odd odd))

  pub nibble-round_before : (k : ℕ) → k < i → nibble (round m dest i d) dest k ≡ nibble m dest k
  nibble-round_before k h = elim (Bool-cases (k / 2 == i / 2)) [
    | inl e ↦ same_byte k (ground arith) (ground arith)
    | inr e ↦ rw (round_else m dest i d (dest + k / 2) (ground arith))
  ]

-- The rest of the loop leaves the half-bytes before `i` alone.
pub nibble-put_from :
    (m : Mem) (dest i k : ℕ) (cs : List ℕ)
    → IsFree m dest i
    → k < i
    → nibble (put_from m dest i cs) dest k ≡ nibble m dest k
unfolding put_from round
nibble-put_from m dest i k [] v h = refl
nibble-put_from m dest i k (c ∷ cs) v h =
    nibble-put_from (round m dest i (char2digit c % 16)) dest (i + 1) k cs
      (round-IsFree m dest i (char2digit c % 16) (omega arith) v) (omega arith)
    ∙ nibble-round_before m dest i (char2digit c % 16) (omega arith) v k h
