-- ===== src/Sched/Run.antt =====
-- `ss7_schedule_run` with callbacks that leave the scheduler alone: a world of the table and the
-- list of the calls made so far.
use mathlib.Core.List.{append_assoc, append-nil}
use libss.Base.{
  ℕ, zero, suc, ◌-◌, ◌≡◌, refl, ap, ◌∙◌, Option, none, some, List, [], ◌∷◌, ◌++◌, map, arith,
  if◌then◌else◌, length, length-append, get_elem?, set,
}
use libss.Sched.{
  Timeval, Slot, Sched, max_sched, reached, run_slot, visit, run_from, ss7_schedule_run,
}

abbrev pub Logged : Type 0 → Type 0 → Type 0
Logged F D = Sched F D × List (F × Option D)

module _ {F D : Type 0} where
  abbrev pub log_call : F → Option D → Logged F D → Logged F D
  log_call f d w = (w.0, w.1 ++ (f, d) ∷ [])

  abbrev pub table_of : Logged F D → Sched F D
  table_of w = w.0

  abbrev pub set_table : Sched F D → Logged F D → Logged F D
  set_table t w = (t, w.1)

  abbrev pub run_logged : Timeval → Logged F D → Logged F D
  run_logged = ss7_schedule_run table_of set_table log_call

  -- A slot after the run: one that is armed and has come is emptied.
  abbrev pub settle : Timeval → Slot F D → Slot F D
  settle tv s = elim s.callback [
    | none ↦ s
    | some f ↦ if reached s.when tv then record s { callback = none; arg = none } else s
  ]

  -- The calls that are due, in the order of the table.
  abbrev pub due : Timeval → List (Slot F D) → List (F × Option D)
  due tv [] = []
  due tv (s ∷ ss) = elim s.callback [
    | none ↦ due tv ss
    | some f ↦ if reached s.when tv then (f, s.arg) ∷ due tv ss else due tv ss
  ]

  get_elem?-append :
      (pre : List (Slot F D)) (s : Slot F D) (ss : List (Slot F D))
      → get_elem? (pre ++ s ∷ ss) (length pre) ≡ some s
  get_elem?-append [] s ss = refl
  get_elem?-append (p ∷ pre) s ss = get_elem?-append pre s ss

  set-append :
      (pre : List (Slot F D)) (s v : Slot F D) (ss : List (Slot F D))
      → set (pre ++ s ∷ ss) (length pre) v ≡ pre ++ v ∷ ss
  set-append [] s v ss = refl
  set-append (p ∷ pre) s v ss = ap (◌∷◌ p) (set-append pre s v ss)

  abbrev run_from_logged : ℕ → ℕ → Timeval → Logged F D → Logged F D
  run_from_logged = run_from table_of set_table log_call

  abbrev due_one : Timeval → Slot F D → List (F × Option D)
  due_one tv s = due tv (s ∷ [])

  due-cons :
      (tv : Timeval) (s : Slot F D) (ss : List (Slot F D))
      → due tv (s ∷ ss) ≡ due_one tv s ++ due tv ss
  due-cons tv s ss = ground arith

  -- One slot.
  run_slot_lem :
      (x : ℕ) (tv : Timeval) (pre : List (Slot F D)) (s : Slot F D) (ss : List (Slot F D))
      (log : List (F × Option D)) (m : ℕ)
      → length pre ≡ x
      → run_slot table_of set_table log_call x tv s
          (record { slots = pre ++ s ∷ ss; stray = m }, log)
        ≡ (record { slots = pre ++ settle tv s ∷ ss; stray = m }, log ++ due_one tv s)
  unfolding run_slot
  run_slot_lem x tv pre s ss log m e =
      ground (arith, set-append pre s (record s { callback = none; arg = none }) ss, append-nil log)

  visit_lem :
      (x : ℕ) (tv : Timeval) (pre : List (Slot F D)) (s : Slot F D) (ss : List (Slot F D))
      (log : List (F × Option D)) (m : ℕ)
      → length pre ≡ x
      → visit table_of set_table log_call x tv (record { slots = pre ++ s ∷ ss; stray = m }, log)
        ≡ (record { slots = pre ++ settle tv s ∷ ss; stray = m }, log ++ due_one tv s)
  unfolding visit
  visit_lem x tv pre s ss log m e =
      rw (← e)
        (rw (get_elem?-append pre s ss, visit) (run_slot_lem (length pre) tv pre s ss log m refl))

  run_from_lem :
      (n x : ℕ) (tv : Timeval) (pre ss : List (Slot F D)) (m : ℕ) (log : List (F × Option D))
      → length pre ≡ x
      → length ss ≡ n
      → run_from_logged n x tv (record { slots = pre ++ ss; stray = m }, log)
        ≡ (record { slots = pre ++ map (settle tv) ss; stray = m }, log ++ due tv ss)
  unfolding run_from
  run_from_lem zero x tv pre [] m log e f = ground (arith, append-nil log)
  run_from_lem zero x tv pre (s ∷ ss) m log e f = absurd (omega arith)
  run_from_lem (suc n) x tv pre [] m log e f = absurd (omega arith)
  run_from_lem (suc n) x tv pre (s ∷ ss) m log e f =
      let ih =
        run_from_lem n (suc x) tv (pre ++ settle tv s ∷ []) ss m (log ++ due_one tv s)
          (omega (arith, length-append pre (settle tv s ∷ []))) (omega arith) in
      ap (run_from_logged n (suc x) tv) (visit_lem x tv pre s ss log m e)
      ∙ rw (due-cons tv s ss) (simp append_assoc at ih)

  -- With callbacks that leave the table alone, a run at `tv` makes the calls of the slots from 1 on
  -- that are armed and due, each once and in the order of the table, and empties exactly those.
  pub ss7_schedule_run_lem :
      (tv : Timeval) (s₀ : Slot F D) (ss : List (Slot F D)) (m : ℕ) (log : List (F × Option D))
      → length ss ≡ max_sched - 1
      → run_logged tv (record { slots = s₀ ∷ ss; stray = m }, log)
        ≡ (record { slots = s₀ ∷ map (settle tv) ss; stray = m }, log ++ due tv ss)
  unfolding ss7_schedule_run
  ss7_schedule_run_lem tv s₀ ss m log h =
      run_from_lem (max_sched - 1) 1 tv (s₀ ∷ []) ss m log refl h
