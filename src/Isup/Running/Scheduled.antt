-- ===== src/Isup/Running/Scheduled.antt =====
-- The run of the scheduler over a table with timers of a call.
use libss.Base.{
  ℕ, zero, suc, ◌-◌, ◌<◌, ◌≡◌, ◌≢◌, refl, sym, ap, ◌∙◌, inl, inr, Option, none, some, List, [], ◌∷◌,
  get_elem?, set, length, length-set, get_elem?-set_self, get_elem?-set_ne, if◌then◌else◌,
  Bool-cases, arith,
}
use libss.Base.Int.{ℤ}
use libss.Sched.{Timeval, Slot, max_sched, reached, run_slot, visit, run_from, ss7_schedule_run}
use libss.Isup.World.{Owner, timer, other, CallWorld, Outside}
use libss.Isup.Callbacks.{dispatch, put_sched, schedule_run}
use libss.Isup.Ownership.{
  Table, owner_at, IsOwned, IsReleased, no_owner, eq_or_not, called_for, who,
}
use libss.Isup.Ownership.Stopping.{released-IsOwned}
use libss.Isup.Running.{IsSafe, IsGentle}
use libss.Isup.Running.Expiring.{IsFired, isup_timer_expiry-IsSafe}

-- A slot that is not of the call is emptied.
unrelated-IsOwned :
    (s s' : Table) (ids : List ℤ) (x : ℕ)
    → IsOwned s ids
    → IsReleased s s' x
    → ((t : ℕ) → owner_at s x ≢ some (timer t))
    → IsOwned s' ids
unrelated-IsOwned s s' ids x h r ne = record {
  table = r.table;
  count = h.count;
  ours = λ t n q. let b = h.ours t n q in r.others n (λ v. ne t (ap (owner_at s) v ∙ b)) ∙ b;
  back = λ t n q. elim (eq_or_not x n) [
    | inl p ↦ absurd (no_owner (timer t) (sym (r.gone) ∙ ap (owner_at s') p ∙ q))
    | inr p ↦ h.back t n (sym (r.others n p) ∙ q)
  ];
}

unrelated-IsSafe :
    (w : CallWorld) (s' : Table) (x : ℕ)
    → IsSafe w
    → IsReleased w.sched s' x
    → ((t : ℕ) → owner_at w.sched x ≢ some (timer t))
    → IsSafe (put_sched s' w)
unrelated-IsSafe w s' x h r ne = record {
  owned = unrelated-IsOwned w.sched s' w.call.timer x (h.owned) r ne;
  ended = λ e t n q. elim (eq_or_not x n) [
    | inl p ↦ absurd (no_owner (timer t) (sym (r.gone) ∙ ap (owner_at s') p ∙ q))
    | inr p ↦ h.ended e t n (sym (r.others n p) ∙ q)
  ];
}

-- The slot of a timer: its call is still there.
due-IsFired :
    (w : CallWorld) (s' : Table) (x t : ℕ)
    → IsSafe w
    → IsReleased w.sched s' x
    → owner_at w.sched x ≡ some (timer t)
    → IsFired t (put_sched s' w)
due-IsFired w s' x t h r e = record {
  owned = released-IsOwned w.sched s' w.call.timer t x (h.owned) (h.owned.back t x e) r;
  alive = elim (Bool-cases w.live) [ inl q ↦ q | inr q ↦ absurd (h.ended q t x e) ];
}

emptied : Slot (Unit {0}) Owner → Slot (Unit {0}) Owner
emptied s = record s { callback = none; arg = none }

-- What run_slot leaves of the table before it calls the callback.
emptied-IsReleased :
    (t : Table) (x : ℕ) (s : Slot (Unit {0}) Owner)
    → length t.slots ≡ max_sched
    → get_elem? t.slots x ≡ some s
    → IsReleased t (record t { slots = set t.slots x (record s { callback = none; arg = none }) }) x
unfolding owner_at
emptied-IsReleased t x s h e = record {
  gone = ap who (get_elem?-set_self t.slots x _ (inside t.slots x e));
  others = λ i ne. ap who (get_elem?-set_ne t.slots _ ne);
  table = length-set t.slots x _ ∙ h;
}
  where
    inside : (ss : List (Slot (Unit {0}) Owner)) (x : ℕ) → get_elem? ss x ≡ some s → x < length ss
    inside [] x e = absurd (grind arith)
    inside (r ∷ ss) zero e = omega arith
    inside (r ∷ ss) (suc x) e = omega (arith, inside ss x e)

owner-slot :
    (t : Table) (x : ℕ) (s : Slot (Unit {0}) Owner) (f : Unit {0})
    → get_elem? t.slots x ≡ some s
    → s.callback ≡ some f
    → owner_at t x ≡ s.arg
unfolding owner_at
owner-slot t x s f e q = ap who e ∙ ap (λ c. called_for c s.arg) q

module _ (o : Outside) (g : IsGentle o) (others : ℕ → CallWorld → CallWorld)
    (kept : (k : ℕ) (w : CallWorld) → IsSafe w → IsSafe (others k w)) where
  dispatch-IsSafe :
      (w : CallWorld) (s' : Table) (x : ℕ) (a : Option Owner)
      → IsSafe w
      → IsReleased w.sched s' x
      → owner_at w.sched x ≡ a
      → IsSafe (dispatch o others a (put_sched s' w))
  unfolding dispatch
  dispatch-IsSafe w s' x none h r e =
      unrelated-IsSafe w s' x h r (λ t q. no_owner (timer t) (sym e ∙ q))
  dispatch-IsSafe w s' x (some (timer t)) h r e =
      isup_timer_expiry-IsSafe o g t _ (due-IsFired w s' x t h r e)
  dispatch-IsSafe w s' x (some (other k)) h r e =
      kept k _ (unrelated-IsSafe w s' x h r (λ t q. apart t (sym e ∙ q)))
    where
      apart : (t : ℕ) → some (other k) ≢ some (timer t)
      apart t q = grind arith

  visit-IsSafe :
      (x : ℕ) (tv : Timeval) (w : CallWorld)
      → IsSafe w
      → IsSafe (visit (λ w. w.sched) put_sched (λ f. dispatch o others) x tv w)
  unfolding visit run_slot
  visit-IsSafe x tv w h = looked (get_elem? w.sched.slots x) refl
    where
      called :
          (s : Slot (Unit {0}) Owner) (c : Option (Unit {0}))
          → get_elem? w.sched.slots x ≡ some s
          → s.callback ≡ c
          → IsSafe (elim c [
            | none ↦ w
            | some f ↦
                if reached s.when tv
                then dispatch o others s.arg (
                    put_sched
                      (record w.sched {
                        slots = set w.sched.slots x (record s { callback = none; arg = none });
                      })
                      w)
                else w
          ])
      called s none e q = h
      called s (some f) e q = elim (Bool-cases (reached s.when tv)) [
        | inl b ↦ rw b (
            dispatch-IsSafe w _ x s.arg h (emptied-IsReleased w.sched x s (h.owned.table) e)
              (owner-slot w.sched x s f e q))
        | inr b ↦ rw b h
      ]

      looked :
          (v : Option (Slot (Unit {0}) Owner))
          → get_elem? w.sched.slots x ≡ v
          → IsSafe (elim v [
            | none ↦ w
            | some s ↦ run_slot (λ w. w.sched) put_sched (λ f. dispatch o others) x tv s w
          ])
      looked none e = h
      looked (some s) e = called s s.callback e refl

  run_from-IsSafe :
      (n x : ℕ) (tv : Timeval) (w : CallWorld)
      → IsSafe w
      → IsSafe (run_from (λ w. w.sched) put_sched (λ f. dispatch o others) n x tv w)
  unfolding run_from
  run_from-IsSafe zero x tv w h = h
  run_from-IsSafe (suc n) x tv w h = run_from-IsSafe n (suc x) tv _ (visit-IsSafe x tv w h)

  -- A run of the scheduler, where the functions outside are gentle and the other callbacks keep this
  -- too: a call of the list whose timers name exactly the slots that are theirs keeps them so, and once
  -- the call is freed no slot is that of one of its timers, so that no callback is given a freed call.
  pub schedule_run-IsSafe :
      (tv : Timeval) (w : CallWorld) → IsSafe w → IsSafe (schedule_run o others tv w)
  unfolding schedule_run ss7_schedule_run
  schedule_run-IsSafe tv w h = run_from-IsSafe (max_sched - 1) 1 tv w h
