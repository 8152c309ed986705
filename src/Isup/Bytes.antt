-- ===== src/Isup/Bytes.antt =====
-- A message buffer by its bytes, and `|` on bytes.
use Prim.Native.Nat.{bit_or}
use libss.Base.{
  ℕ, zero, suc, ◌+◌, ◌*◌, ◌%◌, ◌<◌, ◌≡◌, refl, Bool, true, ◌&&◌, arith, ◌==◌, ==_iff, if◌then◌else◌,
}

abbrev pub Mem : Type 0
Mem = ℕ → ℕ

-- `m[i] = v`, for bytes.
unfoldable pub store : Mem → ℕ → ℕ → Mem
store m i v = λ j. if j == i then v % 256 else m j

-- `m[i] |= v`
unfoldable pub or_at : Mem → ℕ → ℕ → Mem
or_at m i v = store m i (bit_or (m i) v)

-- Whether `p` holds of all numbers below `n`, and of all pairs below `n` and `k`.
unfoldable pub all_below : ℕ → (ℕ → Bool) → Bool
all_below zero p = true
all_below (suc n) p = p n && all_below n p

at_below : (n : ℕ) (p : ℕ → Bool) (x : ℕ) → all_below n p ≡ true → x < n → p x ≡ true
unfolding all_below
at_below zero p x h lt = elim lt [ ]
at_below (suc n) p x h lt = ground (arith, at_below n p x)

pub by_table :
    (n : ℕ) (f g : ℕ → ℕ) → all_below n (λ x. f x == g x) ≡ true → (x : ℕ) → x < n → f x ≡ g x
by_table n f g h x lt = (==_iff (f x) (g x)).0 (at_below n (λ x. f x == g x) x h lt)

unfoldable pub both_below : (k : ℕ) (f : ℕ → ℕ → Bool) → ℕ → Bool
both_below k f x = all_below k (f x)

pub by_table_pair :
    (n k : ℕ) (f g : ℕ → ℕ → ℕ)
    → all_below n (both_below k (λ x y. f x y == g x y)) ≡ true
    → (x y : ℕ) → x < n
    → y < k
    → f x y ≡ g x y
unfolding both_below
by_table_pair n k f g h x y hx hy =
    by_table k (f x) (g x) (at_below n (both_below k (λ x y. f x y == g x y)) x h hx) y hy

pub or_zero : (d : ℕ) → d < 256 → bit_or 0 d ≡ d
unfolding all_below
or_zero = by_table 256 (λ d. bit_or 0 d) (λ d. d) refl

-- Fields that do not overlap: four and four bits, one and seven, three and five.
pub or_nibbles : (lo hi : ℕ) → lo < 16 → hi < 16 → bit_or lo (hi * 16) ≡ lo + hi * 16
unfolding all_below both_below
or_nibbles = by_table_pair 16 16 (λ lo hi. bit_or lo (hi * 16)) (λ lo hi. lo + hi * 16) refl

pub or_top : (b n : ℕ) → b < 2 → n < 128 → bit_or (b * 128) n ≡ b * 128 + n
unfolding all_below both_below
or_top = by_table_pair 2 128 (λ b n. bit_or (b * 128) n) (λ b n. b * 128 + n) refl

pub or_five : (b n : ℕ) → b < 8 → n < 32 → bit_or (b * 32) n ≡ b * 32 + n
unfolding all_below both_below
or_five = by_table_pair 8 32 (λ b n. bit_or (b * 32) n) (λ b n. b * 32 + n) refl

-- Two bytes in a row.
pub store_first : (m : Mem) (p a b v : ℕ) → a ≡ v → v < 256 → store (store m p a) (p + 1) b p ≡ v
unfolding store
store_first m p a b v e h = ground arith

pub store_second : (m : Mem) (p b v : ℕ) → b ≡ v → v < 256 → store m (p + 1) b (p + 1) ≡ v
unfolding store
store_second m p b v e h = ground arith

pub store_self : (m : Mem) (p a v : ℕ) → a ≡ v → v < 256 → store m p a p ≡ v
unfolding store
store_self m p a v e h = ground arith
