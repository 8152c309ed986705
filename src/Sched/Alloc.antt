-- ===== src/Sched/Alloc.antt =====
-- Taking a slot (`ss7_schedule_event`) and giving it back (`ss7_schedule_del`).
use libss.Base.{
  ℕ, zero, suc, ◌+◌, ◌≤◌, ◌<◌, ◌≡◌, refl, sym, ap, ◌∙◌, ◌≢◌, ◌⊎◌, inl, inr, Bool, true, false, none,
  some, List, [], ◌∷◌, arith, ◌==◌, Bool-cases, length, get_elem?, drop, length-set,
  get_elem?-set_self, get_elem?-set_ne, ==_iff,
}
use libss.Base.Int.{ℤ, pos, minus_one}
use libss.Sched.{
  Timeval, Slot, Sched, max_sched, deadline, free_from, ss7_schedule_event, clear_at,
  ss7_schedule_del,
}

-- Slot `i` is there and has a callback.
abbrev pub armed : {F D : Type 0} → List (Slot F D) → ℕ → Bool
armed [] i = false
armed (s ∷ ss) zero = elim s.callback [ none ↦ false | some f ↦ true ]
armed (s ∷ ss) (suc i) = armed ss i

module _ {F D : Type 0} where
  free_from-ge : (x : ℕ) (ss : List (Slot F D)) → x ≤ free_from x ss
  unfolding free_from
  free_from-ge x [] = omega arith
  free_from-ge x (s ∷ ss) = ground (arith, free_from-ge (suc x) ss)

  free_from-le : (x : ℕ) (ss : List (Slot F D)) → free_from x ss ≤ x + length ss
  unfolding free_from
  free_from-le x [] = omega arith
  free_from-le x (s ∷ ss) = ground (arith, free_from-le (suc x) ss)

  -- Every slot that the search passes is busy.
  free_from_busy :
      (x : ℕ) (ss : List (Slot F D)) (i : ℕ) → x + i < free_from x ss → armed ss i ≡ true
  unfolding free_from
  free_from_busy x [] i h = absurd (omega arith)
  free_from_busy x (s ∷ ss) zero h = ground (arith, free_from-ge (suc x) ss)
  free_from_busy x (s ∷ ss) (suc i) h = ground (arith, free_from_busy (suc x) ss i)

  -- A search that stops inside the table stops at a free slot.
  free_from_free :
      (x : ℕ) (ss : List (Slot F D)) (i : ℕ)
      → free_from x ss ≡ x + i
      → i < length ss
      → armed ss i ≡ false
  unfolding free_from
  free_from_free x [] i e h = absurd (omega arith)
  free_from_free x (s ∷ ss) zero e h = ground (arith, free_from-ge (suc x) ss)
  free_from_free x (s ∷ ss) (suc i) e h = ground (arith, free_from_free (suc x) ss i)

  -- The new entry.
  abbrev pub entry : Timeval → ℕ → F → D → Slot F D
  entry now ms f d = record { when = deadline now ms; callback = some f; arg = some d }

  abbrev pub IsTable : Sched F D → Type 0
  IsTable t = length t.slots ≡ max_sched

  -- No slot is free: the table stays as it is and the answer is -1.
  pub record IsFull (t : Sched F D) (r : Sched F D × ℤ) : Type 0 where
    pub busy : (i : ℕ) → 0 < i → i < max_sched → armed t.slots i ≡ true
    pub kept : r.0 ≡ t
    pub answer : r.1 ≡ minus_one

  -- Slot `x` was the first free one, holds the new entry, and no other slot has changed.
  pub record IsTaken (t : Sched F D) (r : Sched F D × ℤ) (x : ℕ) (s : Slot F D) : Type 0 where
    pub above : 0 < x
    pub below : x < max_sched
    pub free : armed t.slots x ≡ false
    pub first : (i : ℕ) → 0 < i → i < x → armed t.slots i ≡ true
    pub answer : r.1 ≡ pos x
    pub written : get_elem? r.0.slots x ≡ some s
    pub others : (i : ℕ) → i ≢ x → get_elem? r.0.slots i ≡ get_elem? t.slots i
    pub table : IsTable r.0
    pub no_stray : r.0.stray ≡ t.stray

  busy_below :
      (ss : List (Slot F D)) (n i : ℕ)
      → n ≤ free_from 1 (drop 1 ss)
      → 0 < i
      → i < n
      → armed ss i ≡ true
  unfolding free_from
  busy_below [] n i h p q = absurd (omega arith)
  busy_below (s ∷ ss) n zero h p q = absurd (omega arith)
  busy_below (s ∷ ss) n (suc i) h p q = free_from_busy 1 ss i (omega arith)

  found_free :
      (ss : List (Slot F D)) (x : ℕ)
      → free_from 1 (drop 1 ss) ≡ x
      → 0 < x
      → x < length ss
      → armed ss x ≡ false
  found_free [] x e p q = refl
  found_free (s ∷ ss) zero e p q = absurd (omega arith)
  found_free (s ∷ ss) (suc x) e p q = free_from_free 1 ss x (omega arith) (omega arith)

  search_le : (ss : List (Slot F D)) → length ss ≡ max_sched → free_from 1 (drop 1 ss) ≤ max_sched
  search_le [] h = absurd (omega arith)
  search_le (s ∷ ss) h = omega (arith, free_from-le 1 ss)

  taken :
      (t : Sched F D) (now : Timeval) (ms : ℕ) (f : F) (d : D)
      → IsTable t
      → (free_from 1 (drop 1 t.slots) == max_sched) ≡ false
      → IsTaken t
          (ss7_schedule_event t now ms f d)
          (free_from 1 (drop 1 t.slots))
          (entry now ms f d)
  unfolding ss7_schedule_event
  taken t now ms f d h e = rw e (record {
    above = free_from-ge 1 (drop 1 t.slots);
    below = inside;
    free = found_free t.slots x refl (free_from-ge 1 (drop 1 t.slots)) (omega (arith, inside));
    first = λ i p q. busy_below t.slots x i (omega arith) p q;
    answer = refl;
    written = get_elem?-set_self t.slots x (entry now ms f d) (omega (arith, inside));
    others = λ i ne. get_elem?-set_ne t.slots (entry now ms f d) (λ p. ne (sym p));
    table = length-set t.slots x (entry now ms f d) ∙ h;
    no_stray = refl;
  })
    where
      x : ℕ
      x = free_from 1 (drop 1 t.slots)

      inside : x < max_sched
      inside = ground (arith, search_le t.slots h)

  -- On a table of the right size `ss7_schedule_event` either finds every slot from 1 on busy, then
  -- changes nothing and answers -1; or it takes the first free one of them for the new entry,
  -- answers its number and leaves every other slot alone.
  pub ss7_schedule_event_lem :
      (t : Sched F D) (now : Timeval) (ms : ℕ) (f : F) (d : D)
      → IsTable t
      → IsFull t (ss7_schedule_event t now ms f d)
        ⊎ ((x : ℕ) × IsTaken t (ss7_schedule_event t now ms f d) x (entry now ms f d))
  unfolding ss7_schedule_event
  ss7_schedule_event_lem t now ms f d h =
      elim (Bool-cases (free_from 1 (drop 1 t.slots) == max_sched)) [
        | inl e ↦ inl (
            rw e (record {
              busy = λ i p q.
                  busy_below t.slots max_sched i
                    (ground (arith, ==_iff (free_from 1 (drop 1 t.slots)) max_sched)) p q;
              kept = refl;
              answer = refl;
            }))
        | inr e ↦ inr (free_from 1 (drop 1 t.slots), taken t now ms f d h e)
      ]

  armed_clear_self : (ss : List (Slot F D)) (i : ℕ) → armed (clear_at ss i) i ≡ false
  unfolding clear_at
  armed_clear_self [] i = refl
  armed_clear_self (s ∷ ss) zero = refl
  armed_clear_self (s ∷ ss) (suc i) = armed_clear_self ss i

  clear_at_ne :
      (ss : List (Slot F D)) (i j : ℕ) → i ≢ j → get_elem? (clear_at ss i) j ≡ get_elem? ss j
  unfolding clear_at
  clear_at_ne [] i j h = refl
  clear_at_ne (s ∷ ss) zero zero h = absurd (h refl)
  clear_at_ne (s ∷ ss) zero (suc j) h = refl
  clear_at_ne (s ∷ ss) (suc i) zero h = refl
  clear_at_ne (s ∷ ss) (suc i) (suc j) h = clear_at_ne ss i j (λ e. h (ap suc e))

  length-clear_at : (ss : List (Slot F D)) (i : ℕ) → length (clear_at ss i) ≡ length ss
  unfolding clear_at
  length-clear_at [] i = refl
  length-clear_at (s ∷ ss) zero = refl
  length-clear_at (s ∷ ss) (suc i) = ap suc (length-clear_at ss i)

  -- What `ss7_schedule_del` leaves when `*id` was `n`, a slot of the table.
  pub record IsDeleted (t : Sched F D) (r : Sched F D × ℤ) (n : ℕ) : Type 0 where
    pub disarmed : armed r.0.slots n ≡ false
    pub others : (i : ℕ) → n ≢ i → get_elem? r.0.slots i ≡ get_elem? t.slots i
    pub answer : r.1 ≡ minus_one
    pub table : IsTable r.0
    pub no_stray : r.0.stray ≡ t.stray

  -- Deleting slot `n` of a table disarms that slot alone, sets the id to -1, and writes nothing
  -- outside the table.
  pub ss7_schedule_del_lem :
      (t : Sched F D) (n : ℕ)
      → IsTable t
      → n < max_sched
      → IsDeleted t (ss7_schedule_del t (pos n)) n
  unfolding ss7_schedule_del
  ss7_schedule_del_lem t n h p = record {
    disarmed = armed_clear_self t.slots n;
    others = clear_at_ne t.slots n;
    answer = refl;
    table = length-clear_at t.slots n ∙ h;
    no_stray = ground arith;
  }
