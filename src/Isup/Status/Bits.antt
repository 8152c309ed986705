-- ===== src/Isup/Status/Bits.antt =====
-- One bit of a byte whose higher bits are clear.
use Prim.Native.Nat.{bit_or}
use libss.Base.{
  ℕ, ◌+◌, ◌*◌, ◌/◌, ◌%◌, ◌^◌, ◌<◌, ◌≡◌, refl, Bool, true, false, ◌&&◌, arith, ltb, ◌==◌,
  if◌then◌else◌, if_cases, Bool-cases, inl, inr, lt→ltb,
}
use libss.Isup.Bytes.{all_below, both_below, by_table_pair}

-- The byte `b` after the bit `k` is set for `s`, as `range_and_status_transmit` sets it.
abbrev pub set_bit : ℕ → ℕ → ℕ → ℕ
set_bit b k s = if s == 0 then b else bit_or b (2 ^ k) % 256

-- No bit from `k` on is set.
abbrev pub is_low : ℕ → ℕ → Bool
is_low b k = b % 2 ^ k == b

abbrev when : Bool → ℕ → ℕ
when true n = n
when false n = 0

keeps_low :
    (k b : ℕ)
    → k < 8
    → b < 128
    → when (is_low b k) ((bit_or b (2 ^ k) % 256) % 2 ^ (k + 1))
      ≡ when (is_low b k) (bit_or b (2 ^ k) % 256)
unfolding all_below both_below
keeps_low =
    by_table_pair 8 128 (λ k b. when (is_low b k) ((bit_or b (2 ^ k) % 256) % 2 ^ (k + 1)))
      (λ k b. when (is_low b k) (bit_or b (2 ^ k) % 256)) refl

wider_low : (k b : ℕ) → k < 8 → b < 128 → when (is_low b k) (b % 2 ^ (k + 1)) ≡ when (is_low b k) b
unfolding all_below both_below
wider_low =
    by_table_pair 8 128 (λ k b. when (is_low b k) (b % 2 ^ (k + 1))) (λ k b. when (is_low b k) b)
      refl

bit_is_set :
    (k b : ℕ)
    → k < 8
    → b < 128
    → when (is_low b k) (bit_or b (2 ^ k) % 256 / 2 ^ k % 2) ≡ when (is_low b k) 1
unfolding all_below both_below
bit_is_set =
    by_table_pair 8 128 (λ k b. when (is_low b k) (bit_or b (2 ^ k) % 256 / 2 ^ k % 2))
      (λ k b. when (is_low b k) 1) refl

bit_is_clear : (k b : ℕ) → k < 8 → b < 128 → when (is_low b k) (b / 2 ^ k % 2) ≡ 0
unfolding all_below both_below
bit_is_clear = by_table_pair 8 128 (λ k b. when (is_low b k) (b / 2 ^ k % 2)) (λ k b. 0) refl

stays_small : (k b : ℕ) → k < 7 → b < 128 → when (is_low b k) (bit_or b (2 ^ k) % 256 / 128) ≡ 0
unfolding all_below both_below
stays_small =
    by_table_pair 7 128 (λ k b. when (is_low b k) (bit_or b (2 ^ k) % 256 / 128)) (λ k b. 0) refl

-- `x` is `8 * k + j`.
lower_bits :
    (x b : ℕ)
    → x < 64
    → b < 128
    → when
        (ltb (x % 8) (x / 8) && is_low b (x / 8))
        (bit_or b (2 ^ (x / 8)) % 256 / 2 ^ (x % 8) % 2)
      ≡ when (ltb (x % 8) (x / 8) && is_low b (x / 8)) (b / 2 ^ (x % 8) % 2)
unfolding all_below both_below
lower_bits =
    by_table_pair 64 128
      (λ x b.
        when (ltb (x % 8) (x / 8) && is_low b (x / 8))
          (bit_or b (2 ^ (x / 8)) % 256 / 2 ^ (x % 8) % 2))
      (λ x b. when (ltb (x % 8) (x / 8) && is_low b (x / 8)) (b / 2 ^ (x % 8) % 2)) refl

module _ (k b s : ℕ) (hb : b < 128) (low : is_low b k ≡ true) where
  pub set_bit-low : k < 8 → (set_bit b k s % 2 ^ (k + 1)) ≡ set_bit b k s
  set_bit-low hk =
      if_cases (λ v. v % 2 ^ (k + 1) ≡ v) (s == 0) (λ _. rw low at (wider_low k b hk hb))
        (λ _. rw low at (keeps_low k b hk hb))

  pub set_bit-small : k < 7 → set_bit b k s < 128
  set_bit-small hk =
      if_cases (λ v. v < 128) (s == 0) (λ _. hb)
        (λ _. small (bit_or b (2 ^ k) % 256) (rw low at (stays_small k b hk hb)))
    where
      small : (n : ℕ) → n / 128 ≡ 0 → n < 128
      small n e = omega arith

  pub set_bit_self : k < 8 → set_bit b k s / 2 ^ k % 2 ≡ (if s == 0 then 0 else 1)
  set_bit_self hk = elim (Bool-cases (s == 0)) [
    | inl e ↦ rw e (rw low at (bit_is_clear k b hk hb))
    | inr e ↦ rw e (rw low at (bit_is_set k b hk hb))
  ]

  pub set_bit-lower : (j : ℕ) → k < 8 → j < k → set_bit b k s / 2 ^ j % 2 ≡ b / 2 ^ j % 2
  set_bit-lower j hk hj =
      if_cases (λ v. v / 2 ^ j % 2 ≡ b / 2 ^ j % 2) (s == 0) (λ _. refl)
        (λ _. rw (index, place, lt→ltb j k hj, low) at (lower_bits (8 * k + j) b (omega arith) hb))
    where
      index : (8 * k + j) % 8 ≡ j
      index = omega arith

      place : (8 * k + j) / 8 ≡ k
      place = omega arith
