-- ===== src/Isup/Status/Check.antt =====
-- The comparison of an answer with what was sent.
use mathlib.Core.Option.{some-injective}
use libss.Base.{
  ℕ, zero, suc, ◌+◌, ◌≤◌, ◌<◌, ◌≡◌, ◌↔◌, refl, ap, inl, inr, true, false, some, List, [], ◌∷◌,
  arith, ltb, Bool-cases, length, get_or,
}
use libss.Isup.Status.{take, check_status, isup_check_status}
use libss.Isup.Status.Roundtrip.{length-take, get_or-take}

-- No entry of `got` is above that of `sent`.
abbrev pub IsBelow : List ℕ → List ℕ → Type 0
IsBelow sent got = (k : ℕ) → get_or got k 0 ≤ get_or sent k 0

IsBelow-cons :
    (s g : ℕ) (sent got : List ℕ) → g ≤ s → IsBelow sent got → IsBelow (s ∷ sent) (g ∷ got)
IsBelow-cons s g sent got h rest zero = h
IsBelow-cons s g sent got h rest (suc k) = rest k

check_status_lem :
    (sent got : List ℕ) → length sent ≡ length got → (check_status sent got ≡ 0) ↔ IsBelow sent got
unfolding check_status
check_status_lem [] [] e = ((λ q k. omega arith), λ q. refl)
check_status_lem [] (g ∷ got) e = absurd (omega arith)
check_status_lem (s ∷ sent) [] e = absurd (omega arith)
check_status_lem (s ∷ sent) (g ∷ got) e = elim (Bool-cases (ltb s g)) [
  | inl f ↦ rw f ((λ q. absurd (omega arith)), λ q. absurd (above f (q 0)))
  | inr f ↦ rw f (
    λ q. IsBelow-cons s g sent got (ground arith) ((check_status_lem sent got (omega arith)).0 q),
    λ q. (check_status_lem sent got (omega arith)).1 (λ k. q (suc k)),
  )
]
  where
    above : ltb s g ≡ true → g ≤ s → ⊥
    above f h = ground arith

get_or-take_ge : (n k : ℕ) (ss : List ℕ) → n ≤ k → get_or (take n ss) k 0 ≡ 0
get_or-take_ge zero k ss h = refl
get_or-take_ge (suc n) k [] h = refl
get_or-take_ge (suc n) zero (s ∷ ss) h = absurd (omega arith)
get_or-take_ge (suc n) (suc k) (s ∷ ss) h = get_or-take_ge n k ss (omega arith)

module _ (sent got : List ℕ) (range : ℕ) where
  -- No entry in range of `got` is above that of `sent`.
  abbrev IsBelowTo : Type 0
  IsBelowTo = (k : ℕ) → k ≤ range → get_or got k 0 ≤ get_or sent k 0

  in_range : IsBelow (take (range + 1) sent) (take (range + 1) got) → IsBelowTo
  in_range h k hk = omega (
    arith,
    h k,
    get_or-take (range + 1) k got (omega arith),
    get_or-take (range + 1) k sent (omega arith),
  )

  taken : IsBelowTo → IsBelow (take (range + 1) sent) (take (range + 1) got)
  taken h k = elim (Bool-cases (ltb range k)) [
    | inl e ↦ omega (arith, get_or-take_ge (range + 1) k got (ground arith))
    | inr e ↦ omega (
      arith,
      h k (ground arith),
      get_or-take (range + 1) k got (ground arith),
      get_or-take (range + 1) k sent (ground arith),
    )
  ]

  same_length :
      range < length sent
      → range < length got
      → length (take (range + 1) sent) ≡ length (take (range + 1) got)
  same_length hs hg =
      omega (
        arith,
        length-take (range + 1) sent (omega arith),
        length-take (range + 1) got (omega arith),
      )

  checked :
      range < length sent
      → range < length got
      → isup_check_status sent got range
        ≡ some (check_status (take (range + 1) sent) (take (range + 1) got))
  unfolding isup_check_status
  checked hs hg = rw (long_sent, long_got) refl
    where
      long_sent : ltb (length sent) (range + 1) ≡ false
      long_sent = ground arith

      long_got : ltb (length got) (range + 1) ≡ false
      long_got = ground arith

  -- Over arrays that reach to the end of the range, the answer passes the check exactly where no
  -- entry in range is above the entry that was sent.
  pub isup_check_status_lem :
      range < length sent
      → range < length got
      → (isup_check_status sent got range ≡ some 0)
        ↔ ((k : ℕ) → k ≤ range → get_or got k 0 ≤ get_or sent k 0)
  isup_check_status_lem hs hg = rw (checked hs hg) (
    λ q. in_range ((check_status_lem _ _ (same_length hs hg)).0 (some-injective _ _ q)),
    λ q. ap some ((check_status_lem _ _ (same_length hs hg)).1 (taken q)),
  )
