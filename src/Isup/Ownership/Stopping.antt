-- ===== src/Isup/Ownership/Stopping.antt =====
-- The timers of a call that are stopped, one or all.
use libss.Base.{
  ℕ, zero, suc, ◌≡◌, ◌≢◌, inl, inr, refl, sym, ap, ◌∙◌, false, some, List, [], ◌∷◌, arith, length,
  get_elem?, get_or, set, length-set, get_elem?-set_ne,
}
use libss.Base.Int.{ℤ, pos, negsuc, minus_one, is_nonneg}
use libss.Sched.{ss7_schedule_del}
use libss.Sched.Alloc.{IsTable}
use libss.Isup.Timers.{stop_timer, stop_timers}
use libss.Isup.Timers.Stopped.{InTable, IsStopped, stop_timers-IsStopped}
use libss.Isup.World.{Owner, timer}
use libss.Isup.Ownership.{
  Table, owner_at, IsOwned, IsReleased, same_pos, same_timer, no_owner, not_negative, eq_or_not,
  in_table, ss7_schedule_del-IsReleased,
}

-- An id that is left after one was cleared.
pub record IsLeft (ids : List ℤ) (t u n : ℕ) : Type 0 where
  pub apart : u ≢ t
  pub kept : get_elem? ids u ≡ some (pos n)

pub set-IsLeft :
    (ids : List ℤ) (t u n : ℕ) → get_elem? (set ids t minus_one) u ≡ some (pos n) → IsLeft ids t u n
set-IsLeft [] t u n e = record { apart = λ q. grind arith; kept = e }
set-IsLeft (x ∷ ids) zero zero n e = absurd (not_negative n e)
set-IsLeft (x ∷ ids) zero (suc u) n e = record { apart = λ q. omega arith; kept = e }
set-IsLeft (x ∷ ids) (suc t) zero n e = record { apart = λ q. omega arith; kept = e }
set-IsLeft (x ∷ ids) (suc t) (suc u) n e =
    let r = set-IsLeft ids t u n e in record { apart = λ q. r.apart (omega arith); kept = r.kept }

-- The id of a timer whose slot is free is cleared.
pub released-IsOwned :
    (s s' : Table) (ids : List ℤ) (t n : ℕ)
    → IsOwned s ids
    → get_elem? ids t ≡ some (pos n)
    → IsReleased s s' n
    → IsOwned s' (set ids t minus_one)
released-IsOwned s s' ids t n h e r = record {
  table = r.table;
  count = length-set ids t minus_one ∙ h.count;
  ours = λ u k q.
      let l = set-IsLeft ids t u k q in
      r.others k (λ p.
        l.apart
          (same_timer u t (sym (h.ours u k (l.kept)) ∙ ap (owner_at s) (sym p) ∙ h.ours t n e)))
      ∙ h.ours u k (l.kept);
  back = λ u k q. elim (eq_or_not n k) [
    | inl p ↦ absurd (no_owner (timer u) (sym (r.gone) ∙ ap (owner_at s') p ∙ q))
    | inr p ↦
        let b = h.back u k (sym (r.others k p) ∙ q) in
        get_elem?-set_ne ids minus_one (λ v. p (same_pos n k (sym e ∙ ap (get_elem? ids) v ∙ b)))
        ∙ b
  ];
}

-- A timer that does not run may be set to -1.
pub idle-IsOwned :
    (s : Table) (ids : List ℤ) (t : ℕ)
    → IsOwned s ids
    → ((n : ℕ) → get_elem? ids t ≢ some (pos n))
    → IsOwned s (set ids t minus_one)
idle-IsOwned s ids t h idle = record {
  table = h.table;
  count = length-set ids t minus_one ∙ h.count;
  ours = λ u k q. h.ours u k ((set-IsLeft ids t u k q).kept);
  back = λ u k q.
      let b = h.back u k q in
      get_elem?-set_ne ids minus_one (λ v. idle k (ap (get_elem? ids) v ∙ b)) ∙ b;
}

pub get_or_pos :
    (ids : List ℤ) (t n : ℕ) → get_or ids t minus_one ≡ pos n → get_elem? ids t ≡ some (pos n)
get_or_pos [] t n e = grind arith
get_or_pos (x ∷ ids) zero n e = ap some e
get_or_pos (x ∷ ids) (suc t) n e = get_or_pos ids t n e

get_or_neg :
    (ids : List ℤ) (t k : ℕ)
    → get_or ids t minus_one ≡ negsuc k
    → (n : ℕ) → get_elem? ids t ≢ some (pos n)
get_or_neg [] t k e n q = grind arith
get_or_neg (x ∷ ids) zero k e n q = grind arith
get_or_neg (x ∷ ids) (suc t) k e n q = get_or_neg ids t k e n q

-- isup_stop_timer on a timer of the call.
pub stop_timer-IsOwned :
    (s : Table) (ids : List ℤ) (t : ℕ) (id : ℤ)
    → IsOwned s ids
    → get_or ids t minus_one ≡ id
    → IsOwned (stop_timer s id).0 (set ids t minus_one)
unfolding stop_timer
stop_timer-IsOwned s ids t (pos n) h e =
    let q = get_or_pos ids t n e in
    released-IsOwned s _ ids t n h q
      (ss7_schedule_del-IsReleased s n (h.table) (in_table s n (timer t) (h.table) (h.ours t n q)))
stop_timer-IsOwned s ids t (negsuc k) h e = idle-IsOwned s ids t h (get_or_neg ids t k e)

-- A slot that has an owner after all ids of a list were released.
record IsSpared (s s' : Table) (ids : List ℤ) (n : ℕ) (o : Owner) : Type 0 where
  pub before : owner_at s n ≡ some o
  pub apart : (i : ℕ) → get_elem? ids i ≢ some (pos n)

apart_cons :
    (ids : List ℤ) (x : ℤ) (n : ℕ)
    → x ≢ pos n
    → ((i : ℕ) → get_elem? ids i ≢ some (pos n))
    → (i : ℕ) → get_elem? (x ∷ ids) i ≢ some (pos n)
apart_cons ids x n ne h zero q = ne (grind arith)
apart_cons ids x n ne h (suc i) q = h i q

IsSpared-cons :
    (s s' : Table) (ids : List ℤ) (x : ℤ) (n : ℕ) (o : Owner)
    → x ≢ pos n
    → IsSpared s s' ids n o
    → IsSpared s s' (x ∷ ids) n o
IsSpared-cons s s' ids x n o ne h = record {
  before = h.before;
  apart = apart_cons ids x n ne (h.apart);
}

stop_timers-IsSpared :
    (s : Table) (ids : List ℤ) (n : ℕ) (o : Owner)
    → IsTable s
    → InTable ids
    → owner_at (stop_timers s ids).0 n ≡ some o
    → IsSpared s (stop_timers s ids).0 ids n o
unfolding stop_timers stop_timer
stop_timers-IsSpared s [] n o h r e = record { before = e; apart = λ i q. grind arith }
stop_timers-IsSpared s (negsuc k ∷ ids) n o h r e =
    IsSpared-cons s _ ids (negsuc k) n o (λ q. grind arith)
      (stop_timers-IsSpared s ids n o h (λ i. r (suc i)) e)
stop_timers-IsSpared s (pos k ∷ ids) n o h r e =
    let d = ss7_schedule_del-IsReleased s k h (r 0 k refl) in
    let s' = (ss7_schedule_del s (pos k)).0 in
    let i = stop_timers-IsSpared s' ids n o (d.table) (λ i. r (suc i)) e in
    elim (eq_or_not k n) [
      | inl p ↦ absurd (no_owner o (sym (d.gone) ∙ ap (owner_at s') p ∙ i.before))
      | inr p ↦
          IsSpared-cons s _ ids (pos k) n o (λ q. p (same_pos k n (ap some q)))
            (record { before = sym (d.others n p) ∙ i.before; apart = i.apart })
    ]

length-stop_timers : (s : Table) (ids : List ℤ) → length (stop_timers s ids).1 ≡ length ids
unfolding stop_timers
length-stop_timers s [] = refl
length-stop_timers s (x ∷ ids) = ap suc (length-stop_timers ((stop_timer s x).0) ids)

pub owned-InTable : (s : Table) (ids : List ℤ) → IsOwned s ids → InTable ids
owned-InTable s ids h i n e = in_table s n (timer i) (h.table) (h.ours i n e)

-- Where no timer runs and no slot is that of a timer.
pub record IsIdle (s : Table) (ids : List ℤ) : Type 0 where
  pub owned : IsOwned s ids
  pub none_owned : (t n : ℕ) → owner_at s n ≢ some (timer t)

pub stop_timers-IsIdle :
    (s : Table) (ids : List ℤ)
    → IsOwned s ids
    → IsIdle ((stop_timers s ids).0) ((stop_timers s ids).1)
stop_timers-IsIdle s ids h = record {
  owned = record {
    table = stopped.table;
    count = length-stop_timers s ids ∙ h.count;
    ours = λ t n q. absurd (is_pos n (stopped.stopped t (pos n) q));
    back = λ t n q. absurd (unowned t n q);
  };
  none_owned = unowned;
}
  where
    stopped : IsStopped s ((stop_timers s ids).0) ids ((stop_timers s ids).1)
    stopped = stop_timers-IsStopped s ids (h.table) (owned-InTable s ids h)

    is_pos : (n : ℕ) → is_nonneg (pos n) ≢ false
    is_pos n q = grind arith

    unowned : (t n : ℕ) → owner_at ((stop_timers s ids).0) n ≢ some (timer t)
    unowned t n q =
        let i = stop_timers-IsSpared s ids n (timer t) (h.table) (owned-InTable s ids h) q in
        i.apart t (h.back t n (i.before))
