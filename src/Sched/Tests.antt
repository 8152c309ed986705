-- ===== src/Sched/Tests.antt =====
-- ss7_sched.c at concrete tables.
use libss.Base.{
  ℕ, ◌+◌, ◌*◌, ◌%◌, ◌≤◌, ◌≡◌, refl, ◌↔◌, ◌⊎◌, none, some, [], ◌∷◌, map, replicate, drop, arith,
}
use libss.Base.Int.{pos}
use libss.Sched.{
  Timeval, Slot, Sched, deadline, free_from, ss7_schedule_event, ss7_schedule_next,
  ss7_schedule_del, next_from, closest,
}
use libss.Sched.Alloc.{
  IsFull, IsTaken, IsDeleted, entry, ss7_schedule_event_lem, ss7_schedule_del_lem,
}
use libss.Sched.Next.{micros, deadline_lem, IsNext, ss7_schedule_next-IsNext}
use libss.Sched.Run.{run_logged, settle, due, ss7_schedule_run_lem}

abbrev noon : Timeval
noon = record { tv_sec = 100; tv_usec = 999000 }

abbrev one_idle : Slot ℕ ℕ
one_idle = record { when = record { tv_sec = 0; tv_usec = 0 }; callback = none; arg = none }

abbrev one_armed : Slot ℕ ℕ
one_armed = record { when = record { tv_sec = 99; tv_usec = 7 }; callback = some 5; arg = some 6 }

-- Slot 1 is taken, the others are free.
abbrev some_table : Sched ℕ ℕ
some_table = record { slots = one_idle ∷ one_armed ∷ replicate 510 one_idle; stray = 0 }

second_slot : (ss7_schedule_event some_table noon 1500 3 4).1 ≡ pos 2
unfolding ss7_schedule_event free_from
second_slot = refl

earliest : ss7_schedule_next some_table ≡ some (record { tv_sec = 99; tv_usec = 7 })
unfolding ss7_schedule_next next_from closest
earliest = refl

-- One second to the microsecond is left as it is.
not_normalised : deadline noon 1 ≡ record { tv_sec = 100; tv_usec = 1000000 }
unfolding deadline
not_normalised = refl

ss7_schedule_event_lem_example :
    IsFull some_table (ss7_schedule_event some_table noon 1500 3 4)
    ⊎ ((x : ℕ) × IsTaken some_table
          (ss7_schedule_event some_table noon 1500 3 4)
          x
          (entry noon 1500 3 4))
ss7_schedule_event_lem_example = ss7_schedule_event_lem some_table noon 1500 3 4 refl

ss7_schedule_del_lem_example : IsDeleted some_table (ss7_schedule_del some_table (pos 1)) 1
ss7_schedule_del_lem_example = ss7_schedule_del_lem some_table 1 refl (omega arith)

deadline_lem_example :
    (micros (deadline noon 1) ≡ micros noon + 1 * 1000)
    × ((deadline noon 1).tv_usec ≤ 1000000)
    × (((deadline noon 1).tv_usec ≡ 1000000) ↔ (999000 + 1 % 1000 * 1000 ≡ 1000000))
deadline_lem_example = deadline_lem noon 1 (omega arith)

ss7_schedule_next-IsNext_example : IsNext (drop 1 some_table.slots) (ss7_schedule_next some_table)
ss7_schedule_next-IsNext_example = ss7_schedule_next-IsNext some_table

ss7_schedule_run_lem_example : run_logged noon (some_table, []) ≡ (
  record { slots = one_idle ∷ map (settle noon) (one_armed ∷ replicate 510 one_idle); stray = 0 },
  due noon (one_armed ∷ replicate 510 one_idle),
)
ss7_schedule_run_lem_example =
    ss7_schedule_run_lem noon one_idle (one_armed ∷ replicate 510 one_idle) 0 [] refl
