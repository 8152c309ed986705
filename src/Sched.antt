-- ===== src/Sched.antt =====
-- ss7_sched.c and the `ss7_sched` table of ss7_internal.h: timers in a table of 512 slots, of
-- which slot 0 is never given out. A callback and its `data` pointer are values of two types that
-- the user of the table chooses; a null pointer is `none`. The time that `gettimeofday` returns is
-- an argument, and times and delays are not negative. `stray` counts the writes past the end of
-- the table, which C leaves undefined and which touch no slot.
pub mod Alloc
pub mod Next
pub mod Run
mod Tests
use libss.Base.{
  ℕ, zero, suc, ◌+◌, ◌-◌, ◌*◌, ◌/◌, ◌%◌, Bool, true, false, ◌&&◌, ◌||◌, Option, none, some, List,
  [], ◌∷◌, if◌then◌else◌, ltb, leb, ◌==◌, length, get_elem?, set, drop, replicate,
}
use libss.Base.Int.{ℤ, pos, negsuc, minus_one}

abbrev pub max_sched : ℕ
max_sched = 512

-- struct timeval
pub record Timeval : Type 0 where
  pub tv_sec : ℕ
  pub tv_usec : ℕ

pub record Slot (F D : Type 0) : Type 0 where
  pub when : Timeval
  pub callback : Option F
  pub arg : Option D

pub record Sched (F D : Type 0) : Type 0 where
  pub slots : List (Slot F D)
  pub stray : ℕ

-- `now` plus `ms` milliseconds, with the carry that the code makes.
unfoldable pub deadline : Timeval → ℕ → Timeval
deadline now ms =
    let sec = now.tv_sec + ms / 1000 in
    let usec = now.tv_usec + ms % 1000 * 1000 in
    if ltb 1000000 usec
    then record { tv_sec = sec + 1; tv_usec = usec - 1000000 }
    else record { tv_sec = sec; tv_usec = usec }

-- `a` is later than `b`, as `ss7_schedule_next` compares them.
abbrev pub later : Timeval → Timeval → Bool
later a b = ltb b.tv_sec a.tv_sec || (a.tv_sec == b.tv_sec && ltb b.tv_usec a.tv_usec)

-- `when` has come at `tv`, as `__ss7_schedule_run` compares them.
abbrev pub reached : Timeval → Timeval → Bool
reached when tv =
    ltb when.tv_sec tv.tv_sec || (when.tv_sec == tv.tv_sec && leb when.tv_usec tv.tv_usec)

module _ {F D : Type 0} where
  -- The table that `calloc` leaves in a new `struct ss7`.
  pub empty : Sched F D
  empty = record {
    slots =
        replicate max_sched
          (record { when = record { tv_sec = 0; tv_usec = 0 }; callback = none; arg = none });
    stray = 0;
  }

  -- The loop that looks for a slot without a callback; it ends at the table's size.
  unfoldable pub free_from : ℕ → List (Slot F D) → ℕ
  free_from x [] = x
  free_from x (s ∷ ss) = elim s.callback [ none ↦ x | some f ↦ free_from (suc x) ss ]

  pub ss7_schedule_event : Sched F D → Timeval → ℕ → F → D → Sched F D × ℤ
  ss7_schedule_event t now ms function data_ptr =
      let x = free_from 1 (drop 1 t.slots) in
      if x == max_sched then (t, minus_one) else (
        record t {
          slots =
              set t.slots x
                (record { when = deadline now ms; callback = some function; arg = some data_ptr });
        },
        pos x,
      )

  closest : Option Timeval → Slot F D → Option Timeval
  closest c s = elim s.callback [
    | none ↦ c
    | some f ↦ elim c [
      | none ↦ some s.when
      | some t ↦ if later t s.when then some s.when else some t
    ]
  ]

  next_from : Option Timeval → List (Slot F D) → Option Timeval
  unfolding closest
  next_from c [] = c
  next_from c (s ∷ ss) = next_from (closest c s) ss

  pub ss7_schedule_next : Sched F D → Option Timeval
  unfolding next_from
  ss7_schedule_next t = next_from none (drop 1 t.slots)

  clear_callback : Slot F D → Slot F D
  clear_callback s = record s { callback = none }

  clear_at : List (Slot F D) → ℕ → List (Slot F D)
  unfolding clear_callback
  clear_at [] i = []
  clear_at (s ∷ ss) zero = clear_callback s ∷ ss
  clear_at (s ∷ ss) (suc i) = s ∷ clear_at ss i

  -- The table and the new value of `*id`.
  pub ss7_schedule_del : Sched F D → ℤ → Sched F D × ℤ
  unfolding clear_at
  ss7_schedule_del t (negsuc n) = (t, negsuc n)
  ss7_schedule_del t (pos n) = (
    record { slots = clear_at t.slots n; stray = if ltb n max_sched then t.stray else t.stray + 1 },
    minus_one,
  )

-- A callback may use the scheduler: it runs on a world `W` that holds the table.
module _ {F D W : Type 0} (table : W → Sched F D) (update : Sched F D → W → W)
    (call : F → Option D → W → W) where
  -- The slot is emptied before its callback runs.
  unfoldable pub run_slot : ℕ → Timeval → Slot F D → W → W
  run_slot x tv s w = elim s.callback [
    | none ↦ w
    | some f ↦
        let t = table w in
        if reached s.when tv
        then call f s.arg (
            update (record t { slots = set t.slots x (record s { callback = none; arg = none }) })
              w)
        else w
  ]

  unfoldable pub visit : ℕ → Timeval → W → W
  unfolding run_slot
  visit x tv w = elim (get_elem? (table w).slots x) [ none ↦ w | some s ↦ run_slot x tv s w ]

  -- `n` slots are left, the next of them is `x`.
  unfoldable pub run_from : ℕ → ℕ → Timeval → W → W
  run_from zero x tv w = w
  run_from (suc n) x tv w = run_from n (suc x) tv (visit x tv w)

  unfoldable pub ss7_schedule_run : Timeval → W → W
  ss7_schedule_run tv w = run_from (max_sched - 1) 1 tv w
