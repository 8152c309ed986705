-- ===== src/Isup/Status/Reading.antt =====
-- The loop of `range_and_status_receive`.
use libss.Base.{
  ℕ, zero, suc, ◌+◌, ◌≤◌, ◌<◌, ◌≡◌, refl, ◌∙◌, none, some, List, arith, bit, length, length-set,
  get_or, set, get_or-set_self, get_or-set_ne,
}
use libss.Isup.Bytes.{Mem}
use libss.Isup.Status.{status_bit, read_status}

-- The array after the loop, where it is long enough.
pub filled : Mem → ℕ → ℕ → ℕ → List ℕ → List ℕ
filled m p i zero status = status
filled m p i (suc n) status = filled m p (i + 1) n (set status i (bit (status_bit m p i)))

pub length-filled :
    (m : Mem) (p i n : ℕ) (status : List ℕ) → length (filled m p i n status) ≡ length status
unfolding filled
length-filled m p i zero status = refl
length-filled m p i (suc n) status =
    length-filled m p (i + 1) n (set status i (bit (status_bit m p i)))
    ∙ length-set status i (bit (status_bit m p i))

pub read_status-some :
    (m : Mem) (p i n : ℕ) (status : List ℕ)
    → i + n ≤ length status
    → read_status m p i n status ≡ some (filled m p i n status)
unfolding read_status filled
read_status-some m p i zero status h = refl
read_status-some m p i (suc n) status h = ground (
  arith,
  length-set status i (bit (status_bit m p i)),
  read_status-some m p (i + 1) n (set status i (bit (status_bit m p i))),
)

pub read_status-none :
    (m : Mem) (p i n : ℕ) (status : List ℕ)
    → i ≤ length status
    → length status < i + n
    → read_status m p i n status ≡ none
unfolding read_status
read_status-none m p i zero status le h = absurd (omega arith)
read_status-none m p i (suc n) status le h = ground (
  arith,
  length-set status i (bit (status_bit m p i)),
  read_status-none m p (i + 1) n (set status i (bit (status_bit m p i))),
)

filled_before :
    (m : Mem) (p i n j : ℕ) (status : List ℕ)
    → j < i
    → get_or (filled m p i n status) j 0 ≡ get_or status j 0
unfolding filled
filled_before m p i zero j status h = refl
filled_before m p i (suc n) j status h =
    filled_before m p (i + 1) n j (set status i (bit (status_bit m p i))) (omega arith)
    ∙ get_or-set_ne status {i = i} {j = j} (bit (status_bit m p i)) 0 (omega arith)

pub filled_after :
    (m : Mem) (p i n j : ℕ) (status : List ℕ)
    → i + n ≤ j
    → get_or (filled m p i n status) j 0 ≡ get_or status j 0
unfolding filled
filled_after m p i zero j status h = refl
filled_after m p i (suc n) j status h =
    filled_after m p (i + 1) n j (set status i (bit (status_bit m p i))) (omega arith)
    ∙ get_or-set_ne status {i = i} {j = j} (bit (status_bit m p i)) 0 (omega arith)

-- Within the range the entries are the bits.
pub filled_within :
    (m : Mem) (p i n k : ℕ) (status : List ℕ)
    → k < n
    → i + n ≤ length status
    → get_or (filled m p i n status) (i + k) 0 ≡ bit (status_bit m p (i + k))
unfolding filled
filled_within m p i zero k status hk h = elim hk [ ]
filled_within m p i (suc n) zero status hk h = rw at_i (
    filled_before m p (i + 1) n i (set status i (bit (status_bit m p i))) (omega arith)
    ∙ get_or-set_self status i (bit (status_bit m p i)) 0 (omega arith))
  where
    at_i : i + 0 ≡ i
    at_i = omega arith
filled_within m p i (suc n) (suc k) status hk h =
    rw later
      (filled_within m p (i + 1) n k (set status i (bit (status_bit m p i))) (omega arith) fits)
  where
    later : i + suc k ≡ i + 1 + k
    later = omega arith

    fits : i + 1 + n ≤ length (set status i (bit (status_bit m p i)))
    fits = omega (arith, length-set status i (bit (status_bit m p i)))
