-- ===== src/Isup/Ownership/Starting.antt =====
-- A timer of a call that is started.
use libss.Base.{
  ℕ, zero, suc, ◌<◌, ◌≡◌, ◌≢◌, ◌⊎◌, inl, inr, refl, sym, ap, ◌∙◌, none, some, List, [], ◌∷◌, ◌==◌,
  arith, Bool-cases, length, get_elem?, get_or, set, length-set, get_elem?-set_self,
  get_elem?-set_ne,
}
use libss.Base.Int.{ℤ, pos, minus_one}
use libss.Sched.{Timeval, ss7_schedule_event}
use libss.Sched.Alloc.{entry, IsTaken, ss7_schedule_event_lem}
use libss.Isup.Call.{Call}
use libss.Isup.Timers.{isup_start_timer}
use libss.Isup.World.{timer}
use libss.Isup.Ownership.{
  Table, owner_at, IsOwned, isup_max_timers, disarmed-who, same_pos, same_timer, no_owner,
  eq_or_not,
}
use libss.Isup.Ownership.Stopping.{set-IsLeft, stop_timer-IsOwned}

set_twice : (ids : List ℤ) (t : ℕ) (x y : ℤ) → set (set ids t x) t y ≡ set ids t y
set_twice [] t x y = refl
set_twice (z ∷ ids) zero x y = refl
set_twice (z ∷ ids) (suc t) x y = ap (λ r. z ∷ r) (set_twice ids t x y)

-- An id of a list in which one has been written: that one, or another that was there.
set-cases :
    (ids : List ℤ) (t u x n : ℕ)
    → get_elem? (set ids t (pos x)) u ≡ some (pos n)
    → ((u ≡ t) × (n ≡ x)) ⊎ ((u ≢ t) × (get_elem? ids u ≡ some (pos n)))
set-cases [] t u x n e = grind arith
set-cases (z ∷ ids) zero zero x n e = inl (refl, sym (same_pos x n e))
set-cases (z ∷ ids) zero (suc u) x n e = inr ((λ q. omega arith), e)
set-cases (z ∷ ids) (suc t) zero x n e = inr ((λ q. omega arith), e)
set-cases (z ∷ ids) (suc t) (suc u) x n e = elim (set-cases ids t u x n e) [
  | inl q ↦ inl (ap suc (q.0), q.1)
  | inr q ↦ inr ((λ p. q.0 (omega arith)), q.1)
]

-- A free slot is taken for a timer that does not run.
taken-IsOwned :
    (s : Table) (r : Table × ℤ) (ids : List ℤ) (t x : ℕ) (now : Timeval) (ms : ℕ)
    → IsOwned s (set ids t minus_one)
    → t < length ids
    → IsTaken s r x (entry now ms tt (timer t))
    → IsOwned (r.0) (set ids t (pos x))
unfolding owner_at
taken-IsOwned s r ids t x now ms h l k = record {
  table = k.table;
  count = length-set ids t (pos x) ∙ sym (length-set ids t minus_one) ∙ h.count;
  ours = λ u n q. elim (set-cases ids t u x n q) [
    | inl p ↦ ap (owner_at (r.0)) (p.1) ∙ mine ∙ ap (λ v. some (timer v)) (sym (p.0))
    | inr p ↦
        let b = h.ours u n (get_elem?-set_ne ids minus_one (λ v. p.0 (sym v)) ∙ p.1) in
        others n (λ v. no_owner (timer u) (sym free ∙ ap (owner_at s) (sym v) ∙ b)) ∙ b
  ];
  back = λ u n q. elim (eq_or_not n x) [
    | inl p ↦
        let v = same_timer t u (sym mine ∙ ap (owner_at (r.0)) (sym p) ∙ q) in
        ap (get_elem? (set ids t (pos x))) (sym v)
        ∙ get_elem?-set_self ids t (pos x) l
        ∙ ap (λ v. some (pos v)) (sym p)
    | inr p ↦
        let b = set-IsLeft ids t u n (h.back u n (sym (others n p) ∙ q)) in
        get_elem?-set_ne ids (pos x) (λ v. b.apart (sym v)) ∙ b.kept
  ];
}
  where
    mine : owner_at (r.0) x ≡ some (timer t)
    mine = rw (k.written) refl

    free : owner_at s x ≡ none
    free = disarmed-who s.slots x (k.free)

    others : (n : ℕ) → n ≢ x → owner_at (r.0) n ≡ owner_at s n
    others n ne = rw (k.others n ne) refl

-- ss7_schedule_event for a timer that does not run.
scheduled-IsOwned :
    (s : Table) (ids : List ℤ) (t : ℕ) (now : Timeval) (ms : ℕ)
    → IsOwned s (set ids t minus_one)
    → t < length ids
    → let r = ss7_schedule_event s now ms tt (timer t) in IsOwned (r.0) (set ids t (r.1))
scheduled-IsOwned s ids t now ms h l =
    elim (ss7_schedule_event_lem s now ms tt (timer t) (h.table)) [
      | inl f ↦ rw (f.kept, f.answer) h
      | inr (x, k) ↦ rw (k.answer) (taken-IsOwned s _ ids t x now ms h l k)
    ]

-- isup_start_timer on a timer of the call.
pub isup_start_timer-IsOwned :
    (s : Table) (now : Timeval) (c : Call) (t delay : ℕ)
    → IsOwned s c.timer
    → t < isup_max_timers
    → let r = isup_start_timer s now c t delay tt (timer t) in IsOwned (r.0) (r.1.timer)
unfolding isup_start_timer
isup_start_timer-IsOwned s now c t delay h l = elim (Bool-cases (delay == 0)) [
  | inl e ↦ rw e h
  | inr e ↦ rw e (
      scheduled-IsOwned _ c.timer t now delay
        (stop_timer-IsOwned s c.timer t (get_or c.timer t minus_one) h refl)
        (omega (arith, h.count)))
]
