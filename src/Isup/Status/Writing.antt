-- ===== src/Isup/Status/Writing.antt =====
-- The loop of `range_and_status_transmit`, one circuit at a time.
use libss.Base.{
  ℕ, zero, suc, ◌+◌, ◌/◌, ◌%◌, ◌^◌, ◌<◌, ◌≢◌, ◌≡◌, refl, ap, ◌∙◌, inl, inr, true, false, not, List,
  [], ◌∷◌, arith, ◌==◌, if◌then◌else◌, Bool-cases, length, get_or, ==_iff,
}
use libss.Isup.Bytes.{Mem, store, or_at}
use libss.Isup.Status.{status_bit, write_status}
use libss.Isup.Status.Bits.{
  set_bit, is_low, set_bit-low, set_bit-small, set_bit_self, set_bit-lower,
}

-- The byte of circuit `i`, before its bit is set.
abbrev pub start : Mem → ℕ → ℕ → ℕ
start m p i = if i % 8 == 0 then 0 else m (p + 1 + i / 8)

-- One round of the loop.
unfoldable pub mark : Mem → ℕ → ℕ → ℕ → Mem
mark m p i s =
    let m₁ = if i % 8 == 0 then store m (p + 1 + i / 8) 0 else m in
    if s == 0 then m₁ else or_at m₁ (p + 1 + i / 8) (2 ^ (i % 8))

mark_here : (m : Mem) (p i s : ℕ) → mark m p i s (p + 1 + i / 8) ≡ set_bit (start m p i) (i % 8) s
unfolding mark or_at store
mark_here m p i s = ground arith

pub mark_else : (m : Mem) (p i s j : ℕ) → j ≢ p + 1 + i / 8 → mark m p i s j ≡ m j
unfolding mark or_at store
mark_else m p i s j h = ground arith

-- No bit of circuit `i` or of a later one is set in its byte.
pub record IsLow (m : Mem) (p i : ℕ) : Type 0 where
  pub small : start m p i < 128
  pub low : is_low (start m p i) (i % 8) ≡ true

pub IsLow-start : (m : Mem) (p i : ℕ) → (i % 8 == 0) ≡ true → IsLow m p i
IsLow-start m p i e = record { small = rw e (omega arith); low = rw e low }
  where
    low : is_low 0 (i % 8) ≡ true
    low = rw exact refl
      where
        exact : i % 8 ≡ 0
        exact = ground arith

module _ (m : Mem) (p i s : ℕ) (v : IsLow m p i) where
  mark-IsLow : IsLow (mark m p i s) p (i + 1)
  mark-IsLow = elim (Bool-cases ((i + 1) % 8 == 0)) [
    | inl e ↦ IsLow-start (mark m p i s) p (i + 1) e
    | inr e ↦ rest e
  ]
    where
      rest : ((i + 1) % 8 == 0) ≡ false → IsLow (mark m p i s) p (i + 1)
      rest e =
          let byte : (i + 1) / 8 ≡ i / 8 = ground arith in
          let place : (i + 1) % 8 ≡ i % 8 + 1 = ground arith in
          let here : start (mark m p i s) p (i + 1) ≡ set_bit (start m p i) (i % 8) s =
            rw (e, byte) (mark_here m p i s) in
          record {
            small =
                rw here
                  (set_bit-small (i % 8) (start m p i) s (v.small) (v.low) (omega (arith, place)));
            low =
                rw (here, place)
                  ((==_iff _ _).1
                    (set_bit-low (i % 8) (start m p i) s (v.small) (v.low) (omega arith)));
          }

  marked_self : status_bit (mark m p i s) p i ≡ not (s == 0)
  unfolding status_bit
  marked_self =
      rw (mark_here m p i s, set_bit_self (i % 8) (start m p i) s (v.small) (v.low) (omega arith))
        (ground arith)

  marked_before : (j : ℕ) → j < i → status_bit (mark m p i s) p j ≡ status_bit m p j
  unfolding status_bit
  marked_before j h = elim (Bool-cases (j / 8 == i / 8)) [
    | inl e ↦ same_byte (ground arith)
    | inr e ↦ rw (mark_else m p i s (p + 1 + j / 8) (ground arith))
  ]
    where
      same_byte :
          j / 8 ≡ i / 8
          → (mark m p i s (p + 1 + j / 8) / 2 ^ (j % 8) % 2 == 1)
            ≡ (m (p + 1 + j / 8) / 2 ^ (j % 8) % 2 == 1)
      same_byte e =
          let inner : (i % 8 == 0) ≡ false = ground arith in
          let held : start m p i ≡ m (p + 1 + i / 8) = rw inner refl in
          rw
            (
              e,
              mark_here m p i s,
              set_bit-lower (i % 8) (start m p i) s (v.small) (v.low) (j % 8) (omega arith)
                  (omega arith),
              held,
            )
            refl

status-write_status_before :
    (m : Mem) (p i j : ℕ) (ss : List ℕ)
    → IsLow m p i
    → j < i
    → status_bit (write_status m p i ss) p j ≡ status_bit m p j
unfolding write_status mark
status-write_status_before m p i j [] v h = refl
status-write_status_before m p i j (s ∷ ss) v h =
    status-write_status_before (mark m p i s) p (i + 1) j ss (mark-IsLow m p i s v) (omega arith)
    ∙ marked_before m p i s v j h

-- Every circuit that is written has its bit set exactly where its entry is not 0.
pub status-write_status :
    (m : Mem) (p i k : ℕ) (ss : List ℕ)
    → IsLow m p i
    → k < length ss
    → status_bit (write_status m p i ss) p (i + k) ≡ not (get_or ss k 0 == 0)
unfolding write_status mark
status-write_status m p i k [] v h = elim h [ ]
status-write_status m p i zero (s ∷ ss) v h =
    ap (status_bit (write_status (mark m p i s) p (i + 1) ss) p) at_i
    ∙ status-write_status_before (mark m p i s) p (i + 1) i ss (mark-IsLow m p i s v) (omega arith)
    ∙ marked_self m p i s v
  where
    at_i : i + 0 ≡ i
    at_i = omega arith
status-write_status m p i (suc k) (s ∷ ss) v h =
    ap (status_bit (write_status (mark m p i s) p (i + 1) ss) p) later
    ∙ status-write_status (mark m p i s) p (i + 1) k ss (mark-IsLow m p i s v) (omega arith)
  where
    later : i + suc k ≡ i + 1 + k
    later = omega arith
