-- ===== src/Isup/Ownership.antt =====
-- Whose the slots of the scheduler's table are, and which slots the timers of a call name.
pub mod Stopping
pub mod Elsewhere
pub mod Starting
use libss.Base.{
  ℕ, zero, suc, ◌+◌, ◌<◌, ◌≡◌, ◌≢◌, ◌⊎◌, inl, inr, refl, sym, ap, ◌∙◌, Bool, true, false, Option,
  none, some, List, [], ◌∷◌, ◌==◌, ==_iff, Bool-cases, arith, length, get_elem?, get_or, set,
  length-set, get_elem?-set_self, get_elem?-set_ne,
}
use libss.Base.Int.{ℤ, pos, negsuc, minus_one, is_nonneg}
use libss.Sched.{Timeval, Slot, Sched, max_sched, ss7_schedule_event, ss7_schedule_del}
use libss.Sched.Alloc.{
  armed, entry, IsTable, IsFull, IsTaken, IsDeleted, ss7_schedule_event_lem, ss7_schedule_del_lem,
}
use libss.Isup.Timers.{stop_timer, stop_timers}
use libss.Isup.World.{Owner, timer, other}

abbrev pub Table : Type 0
Table = Sched (Unit {0}) Owner

abbrev pub called_for : Option (Unit {0}) → Option Owner → Option Owner
called_for none a = none
called_for (some f) a = a

abbrev pub who : Option (Slot (Unit {0}) Owner) → Option Owner
who none = none
who (some s) = called_for s.callback s.arg

-- For whom the callback in slot `n` is to be called.
unfoldable pub owner_at : Table → ℕ → Option Owner
owner_at t n = who (get_elem? t.slots n)

abbrev pub isup_max_timers : ℕ
isup_max_timers = 64

-- A slot of the table is that of a timer of the call exactly where the timer holds its number.
pub record IsOwned (s : Table) (ids : List ℤ) : Type 0 where
  pub table : IsTable s
  pub count : length ids ≡ isup_max_timers
  pub ours : (t n : ℕ) → get_elem? ids t ≡ some (pos n) → owner_at s n ≡ some (timer t)
  pub back : (t n : ℕ) → owner_at s n ≡ some (timer t) → get_elem? ids t ≡ some (pos n)

pub same_pos : (k n : ℕ) → some (pos k) ≡ some (pos n) → k ≡ n
same_pos k n h = grind arith

pub same_timer : (t u : ℕ) → some (timer t) ≡ some (timer u) → t ≡ u
same_timer t u h = grind arith

pub no_owner : (o : Owner) → none ≢ some o
no_owner o h = grind arith

pub not_negative : (n : ℕ) → some minus_one ≢ some (pos n)
not_negative n h = grind arith

pub disarmed-who :
    (ss : List (Slot (Unit {0}) Owner)) (n : ℕ) → armed ss n ≡ false → who (get_elem? ss n) ≡ none
disarmed-who [] n h = refl
disarmed-who (s ∷ ss) zero h = by_callback s.callback s.arg h
  where
    by_callback :
        (f : Option (Unit {0})) (a : Option Owner)
        → elim f [ none ↦ false | some g ↦ true ] ≡ false
        → called_for f a ≡ none
    by_callback none a h = refl
    by_callback (some g) a h = absurd (true_ne h)
      where
        true_ne : true ≡ false → ⊥
        true_ne h = grind arith
disarmed-who (s ∷ ss) (suc n) h = disarmed-who ss n h

pub eq_or_not : (i j : ℕ) → (i ≡ j) ⊎ (i ≢ j)
eq_or_not i j = elim (Bool-cases (i == j)) [
  | inl e ↦ inl ((==_iff i j).0 e)
  | inr e ↦ inr (λ q. ground arith)
]

pub in_table : (s : Table) (n : ℕ) (o : Owner) → IsTable s → owner_at s n ≡ some o → n < max_sched
unfolding owner_at
in_table s n o h e = rw (← h) (inside s.slots n o e)
  where
    inside :
        (ss : List (Slot (Unit {0}) Owner)) (n : ℕ) (o : Owner)
        → who (get_elem? ss n) ≡ some o
        → n < length ss
    inside [] n o e = absurd (no_owner o e)
    inside (s ∷ ss) zero o e = omega arith
    inside (s ∷ ss) (suc n) o e = omega (arith, inside ss n o e)

-- A deleted slot has no owner, and those of the other slots stay.
pub record IsReleased (s s' : Table) (n : ℕ) : Type 0 where
  pub gone : owner_at s' n ≡ none
  pub others : (i : ℕ) → n ≢ i → owner_at s' i ≡ owner_at s i
  pub table : IsTable s'

pub ss7_schedule_del-IsReleased :
    (s : Table) (n : ℕ)
    → IsTable s
    → n < max_sched
    → IsReleased s ((ss7_schedule_del s (pos n)).0) n
unfolding owner_at
ss7_schedule_del-IsReleased s n h p =
    let d = ss7_schedule_del_lem s n h p in
    record {
      gone = disarmed-who ((ss7_schedule_del s (pos n)).0.slots) n (d.disarmed);
      others = λ i ne. ap who (d.others i ne);
      table = d.table;
    }
