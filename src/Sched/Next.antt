-- ===== src/Sched/Next.antt =====
-- The deadline of a new entry, and `ss7_schedule_next`, which looks for the earliest one.
use mathlib.Core.Path.{subst}
use libss.Base.{
  ◌↔◌, ℕ, ◌+◌, ◌*◌, ◌%◌, ◌≤◌, ◌<◌, ◌≡◌, refl, sym, ◌≢◌, ◌⊎◌, inl, inr, true, false, Option, none,
  some, List, [], ◌∷◌, arith, Bool-cases, Option-cases, drop,
}
use libss.Sched.{Timeval, Slot, Sched, deadline, later, closest, next_from, ss7_schedule_next}

-- A time in microseconds.
abbrev pub micros : Timeval → ℕ
micros t = t.tv_sec * 1000000 + t.tv_usec

-- For a normalised `now`, the deadline lies `ms` milliseconds after it to the microsecond, and its
-- `tv_usec` is at most 1000000; it is 1000000, which is no normalised value, exactly when the
-- microseconds of the sum come to one full second.
pub deadline_lem :
    (now : Timeval) (ms : ℕ)
    → now.tv_usec < 1000000
    → (micros (deadline now ms) ≡ micros now + ms * 1000)
      × ((deadline now ms).tv_usec ≤ 1000000)
      × (((deadline now ms).tv_usec ≡ 1000000) ↔ (now.tv_usec + ms % 1000 * 1000 ≡ 1000000))
unfolding deadline
deadline_lem now ms h = (ground arith, ground arith, ((λ e. ground arith), (λ e. ground arith)))

-- `a` is not later than `b`.
abbrev pub Earlier : Timeval → Timeval → Type 0
Earlier a b = (a.tv_sec < b.tv_sec) ⊎ ((a.tv_sec ≡ b.tv_sec) × (a.tv_usec ≤ b.tv_usec))

later-false : (a b : Timeval) → later a b ≡ false → Earlier a b
later-false a b h = grind arith

later-true : (a b : Timeval) → later a b ≡ true → Earlier b a
later-true a b h = grind arith

Earlier-trans : (a b c : Timeval) → Earlier a b → Earlier b c → Earlier a c
Earlier-trans a b c h k = grind arith

module _ {F D : Type 0} where
  -- `t` is the deadline of an armed slot of the list.
  abbrev pub IsDeadline : List (Slot F D) → Timeval → Type 0
  IsDeadline [] t = ⊥
  IsDeadline (s ∷ ss) t = ((f : F) × (s.callback ≡ some f) × (s.when ≡ t)) ⊎ IsDeadline ss t

  -- No armed slot of the list has an earlier deadline than `t`.
  abbrev pub NoneBefore : Timeval → List (Slot F D) → Type 0
  NoneBefore t [] = Unit {0}
  NoneBefore t (s ∷ ss) = (s.callback ≢ none → Earlier t s.when) × NoneBefore t ss

  abbrev pub NoneArmed : List (Slot F D) → Type 0
  NoneArmed [] = Unit {0}
  NoneArmed (s ∷ ss) = (s.callback ≡ none) × NoneArmed ss

  -- The loop with a candidate `c`.
  record Best (c : Timeval) (ss : List (Slot F D)) : Type 0 where
    best : Timeval
    found : next_from (some c) ss ≡ some best
    from : (best ≡ c) ⊎ IsDeadline ss best
    before : Earlier best c
    least : NoneBefore best ss

  Best-of_armed :
      (c : Timeval) (s : Slot F D) (ss : List (Slot F D)) (f : F)
      → s.callback ≡ some f
      → Best c ss
      → Best s.when ss
      → Best c (s ∷ ss)
  unfolding next_from
  Best-of_armed c s ss f e b b' = elim (Bool-cases (later c s.when)) [
    | inl l ↦ record {
      best = b'.best;
      found = rw (e, closest) (rw l b'.found);
      from = inr (from_new b'.from);
      before = Earlier-trans b'.best s.when c b'.before (later-true c s.when l);
      least = (λ _. b'.before, b'.least);
    }
    | inr l ↦ record {
      best = b.best;
      found = rw (e, closest) (rw l b.found);
      from = from_old b.from;
      before = b.before;
      least = (λ _. Earlier-trans b.best c s.when b.before (later-false c s.when l), b.least);
    }
  ]
    where
      from_new : (b'.best ≡ s.when) ⊎ IsDeadline ss b'.best → IsDeadline (s ∷ ss) b'.best
      from_new (inl p) = inl (f, e, sym p)
      from_new (inr q) = inr q

      from_old : (b.best ≡ c) ⊎ IsDeadline ss b.best → (b.best ≡ c) ⊎ IsDeadline (s ∷ ss) b.best
      from_old (inl p) = inl p
      from_old (inr q) = inr (inr q)

  Best-of_idle :
      (c : Timeval) (s : Slot F D) (ss : List (Slot F D))
      → s.callback ≡ none
      → Best c ss
      → Best c (s ∷ ss)
  unfolding next_from
  Best-of_idle c s ss e b = record {
    best = b.best;
    found = rw (e, closest) b.found;
    from = from_old b.from;
    before = b.before;
    least = (λ ne. absurd (ne e), b.least);
  }
    where
      from_old : (b.best ≡ c) ⊎ IsDeadline ss b.best → (b.best ≡ c) ⊎ IsDeadline (s ∷ ss) b.best
      from_old (inl p) = inl p
      from_old (inr q) = inr (inr q)

  Best-of : (c : Timeval) (ss : List (Slot F D)) → Best c ss
  unfolding next_from
  Best-of c [] = record {
    best = c;
    found = refl;
    from = inl refl;
    before = inr (refl, omega arith);
    least = tt;
  }
  Best-of c (s ∷ ss) = elim (Option-cases s.callback) [
    | inl e ↦ Best-of_idle c s ss e (Best-of c ss)
    | inr (f, e) ↦ Best-of_armed c s ss f e (Best-of c ss) (Best-of s.when ss)
  ]

  -- What the search answers: nothing when no slot is armed, else the least armed deadline.
  abbrev pub IsNext : List (Slot F D) → Option Timeval → Type 0
  IsNext ss none = NoneArmed ss
  IsNext ss (some t) = IsDeadline ss t × NoneBefore t ss

  IsNext-idle :
      (s : Slot F D) (ss : List (Slot F D)) (o : Option Timeval)
      → s.callback ≡ none
      → IsNext ss o
      → IsNext (s ∷ ss) o
  IsNext-idle s ss none e h = (e, h)
  IsNext-idle s ss (some t) e h = (inr h.0, ((λ ne. absurd (ne e)), h.1))

  closest_idle : (c : Option Timeval) (s : Slot F D) → s.callback ≡ none → closest c s ≡ c
  unfolding closest
  closest_idle c s e = rw e

  closest_first : (s : Slot F D) (f : F) → s.callback ≡ some f → closest none s ≡ some s.when
  unfolding closest
  closest_first s f e = rw e

  next_from-IsNext : (ss : List (Slot F D)) → IsNext ss (next_from none ss)
  unfolding next_from
  next_from-IsNext [] = tt
  next_from-IsNext (s ∷ ss) = elim (Option-cases s.callback) [
    | inl e ↦
        subst (λ o. IsNext (s ∷ ss) (next_from o ss)) (sym (closest_idle none s e))
          (IsNext-idle s ss (next_from none ss) e (next_from-IsNext ss))
    | inr (f, e) ↦
        let b = Best-of s.when ss in
        subst (λ o. IsNext (s ∷ ss) (next_from o ss)) (sym (closest_first s f e))
          (subst (IsNext (s ∷ ss)) (sym b.found) (from_best f e b, ((λ _. b.before), b.least)))
  ]
    where
      from_best : (f : F) → s.callback ≡ some f → (b : Best s.when ss) → IsDeadline (s ∷ ss) b.best
      from_best f e b = pick b.from
        where
          pick : (b.best ≡ s.when) ⊎ IsDeadline ss b.best → IsDeadline (s ∷ ss) b.best
          pick (inl p) = inl (f, e, sym p)
          pick (inr q) = inr q

  -- `ss7_schedule_next` answers null exactly for a table with no armed slot from 1 on, and
  -- otherwise the deadline of one of them than which none of them has an earlier one.
  pub ss7_schedule_next-IsNext : (t : Sched F D) → IsNext (drop 1 t.slots) (ss7_schedule_next t)
  unfolding ss7_schedule_next
  ss7_schedule_next-IsNext t = next_from-IsNext (drop 1 t.slots)
