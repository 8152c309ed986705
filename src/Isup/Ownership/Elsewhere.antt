-- ===== src/Isup/Ownership/Elsewhere.antt =====
-- The timers of a call where another part of the program starts or stops one of its own.
use libss.Base.{ℕ, ◌≡◌, ◌≢◌, inl, inr, refl, sym, ap, ◌∙◌, some, none, List, arith}
use libss.Base.Int.{ℤ, pos}
use libss.Sched.{Timeval, ss7_schedule_event, ss7_schedule_del}
use libss.Sched.Alloc.{entry, IsTaken, ss7_schedule_event_lem}
use libss.Isup.World.{timer, other}
use libss.Isup.Ownership.{
  Table, owner_at, IsOwned, IsReleased, disarmed-who, no_owner, eq_or_not, in_table,
  ss7_schedule_del-IsReleased,
}

-- The slots of the timers stay those of the timers, and no other slot becomes one.
pub record IsAlike (s s' : Table) : Type 0 where
  pub kept : (t n : ℕ) → owner_at s n ≡ some (timer t) → owner_at s' n ≡ some (timer t)
  pub back : (t n : ℕ) → owner_at s' n ≡ some (timer t) → owner_at s n ≡ some (timer t)

apart : (k t : ℕ) → some (other k) ≢ some (timer t)
apart k t q = grind arith

taken-IsAlike :
    (s : Table) (r : Table × ℤ) (k x ms : ℕ) (now : Timeval)
    → IsTaken s r x (entry now ms tt (other k))
    → IsAlike s (r.0)
unfolding owner_at
taken-IsAlike s r k x ms now h = record {
  kept = λ t n e. others n (λ v. no_owner (timer t) (sym free ∙ ap (owner_at s) (sym v) ∙ e)) ∙ e;
  back = λ t n e. elim (eq_or_not n x) [
    | inl p ↦ absurd (apart k t (sym mine ∙ ap (owner_at (r.0)) (sym p) ∙ e))
    | inr p ↦ sym (others n p) ∙ e
  ];
}
  where
    mine : owner_at (r.0) x ≡ some (other k)
    mine = rw (h.written) refl

    free : owner_at s x ≡ none
    free = disarmed-who s.slots x (h.free)

    others : (n : ℕ) → n ≢ x → owner_at (r.0) n ≡ owner_at s n
    others n ne = rw (h.others n ne) refl

-- ss7_schedule_event for another part of the program.
pub ss7_schedule_event-IsOwned :
    (s : Table) (ids : List ℤ) (k ms : ℕ) (now : Timeval)
    → IsOwned s ids
    → IsOwned ((ss7_schedule_event s now ms tt (other k)).0) ids
      × IsAlike s ((ss7_schedule_event s now ms tt (other k)).0)
ss7_schedule_event-IsOwned s ids k ms now h =
    elim (ss7_schedule_event_lem s now ms tt (other k) (h.table)) [
      | inl f ↦ rw (f.kept) (h, record { kept = λ t n e. e; back = λ t n e. e })
      | inr (x, q) ↦
          let a = taken-IsAlike s _ k x ms now q in
          (
            record {
              table = q.table;
              count = h.count;
              ours = λ t n e. a.kept t n (h.ours t n e);
              back = λ t n e. h.back t n (a.back t n e);
            },
            a,
          )
    ]

-- ss7_schedule_del of a slot of another part of the program.
pub ss7_schedule_del-IsOwned :
    (s : Table) (ids : List ℤ) (k n : ℕ)
    → IsOwned s ids
    → owner_at s n ≡ some (other k)
    → IsOwned ((ss7_schedule_del s (pos n)).0) ids × IsAlike s ((ss7_schedule_del s (pos n)).0)
ss7_schedule_del-IsOwned s ids k n h o = (
  record {
    table = d.table;
    count = h.count;
    ours = λ t i e. a.kept t i (h.ours t i e);
    back = λ t i e. h.back t i (a.back t i e);
  },
  a,
)
  where
    d : IsReleased s ((ss7_schedule_del s (pos n)).0) n
    d = ss7_schedule_del-IsReleased s n (h.table) (in_table s n (other k) (h.table) o)

    a : IsAlike s ((ss7_schedule_del s (pos n)).0)
    a = record {
      kept = λ t i e. d.others i (λ v. apart k t (sym o ∙ ap (owner_at s) v ∙ e)) ∙ e;
      back = λ t i e. elim (eq_or_not n i) [
        | inl p ↦ absurd (no_owner (timer t) (sym (d.gone) ∙ ap (owner_at _) p ∙ e))
        | inr p ↦ sym (d.others i p) ∙ e
      ];
    }
