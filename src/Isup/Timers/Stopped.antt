-- ===== src/Isup/Timers/Stopped.antt =====
-- What the end of a call leaves in the table of the scheduler.
use libss.Base.{
  ℕ, zero, suc, ◌<◌, ◌≤◌, ◌≡◌, ◌≢◌, refl, sym, ◌∙◌, ap, inl, inr, Bool, true, false, Option, none,
  some, List, [], ◌∷◌, ◌==◌, ==_iff, get_elem?, arith, Bool-cases,
}
use libss.Base.Int.{ℤ, pos, negsuc, minus_one, is_nonneg}
use libss.Sched.{Slot, Sched, max_sched, ss7_schedule_del}
use libss.Sched.Alloc.{armed, IsTable, IsDeleted, ss7_schedule_del_lem}
use libss.Isup.Call.{Call}
use libss.Isup.Timers.{stop_timer, stop_timers, isup_stop_all_timers, unlink, isup_free_call}

-- The ids that are not -1 are slots of the table.
abbrev pub InTable : List ℤ → Type 0
InTable ids = (i n : ℕ) → get_elem? ids i ≡ some (pos n) → n < max_sched

apart : (n j : ℕ) → (n == j) ≡ false → n ≢ j
apart n j e = ground arith

same_pos : (k n : ℕ) → some (pos k) ≡ some (pos n) → k ≡ n
same_pos k n h = grind arith

same_neg : (k : ℕ) (x : ℤ) → some (negsuc k) ≡ some x → is_nonneg x ≡ false
same_neg k (pos a) h = grind arith
same_neg k (negsuc a) h = refl

unlink_before : (cs : List Call) (i j : ℕ) → j < i → get_elem? (unlink cs i) j ≡ get_elem? cs j
unfolding unlink
unlink_before [] i j h = refl
unlink_before (c ∷ cs) zero j h = elim h [ ]
unlink_before (c ∷ cs) (suc i) zero h = refl
unlink_before (c ∷ cs) (suc i) (suc j) h = unlink_before cs i j (omega (arith, h))

unlink_behind :
    (cs : List Call) (i j : ℕ) → i ≤ j → get_elem? (unlink cs i) j ≡ get_elem? cs (suc j)
unfolding unlink
unlink_behind [] i j h = refl
unlink_behind (c ∷ cs) zero j h = refl
unlink_behind (c ∷ cs) (suc i) zero h = elim h [ ]
unlink_behind (c ∷ cs) (suc i) (suc j) h = unlink_behind cs i j (omega (arith, h))

module _ {F D : Type 0} where
  busy : Option (Slot F D) → Bool
  busy none = false
  busy (some s) = elim s.callback [ none ↦ false | some f ↦ true ]

  armed-busy : (ss : List (Slot F D)) (i : ℕ) → armed ss i ≡ busy (get_elem? ss i)
  unfolding busy
  armed-busy [] i = refl
  armed-busy (s ∷ ss) zero = refl
  armed-busy (s ∷ ss) (suc i) = armed-busy ss i

  armed_same :
      (ss ss' : List (Slot F D)) (i : ℕ)
      → get_elem? ss i ≡ get_elem? ss' i
      → armed ss i ≡ armed ss' i
  armed_same ss ss' i e = armed-busy ss i ∙ ap busy e ∙ sym (armed-busy ss' i)

  -- Where the timers of one call were stopped: their slots are free and no other slot has changed.
  pub record IsStopped (t t' : Sched F D) (ids ids' : List ℤ) : Type 0 where
    pub disarmed : (i n : ℕ) → get_elem? ids i ≡ some (pos n) → armed t'.slots n ≡ false
    pub others :
        (n : ℕ)
        → ((i : ℕ) → get_elem? ids i ≢ some (pos n))
        → get_elem? t'.slots n ≡ get_elem? t.slots n
    pub still : (n : ℕ) → armed t.slots n ≡ false → armed t'.slots n ≡ false
    pub stopped : (i : ℕ) (x : ℤ) → get_elem? ids' i ≡ some x → is_nonneg x ≡ false
    pub table : IsTable t'

  pub deleted_still :
      (t : Sched F D) (n j : ℕ)
      → IsDeleted t (ss7_schedule_del t (pos n)) n
      → armed t.slots j ≡ false
      → armed (ss7_schedule_del t (pos n)).0.slots j ≡ false
  deleted_still t n j d h = elim (Bool-cases (n == j)) [
    | inl e ↦ rw (← ((==_iff n j).0 e)) (d.disarmed)
    | inr e ↦ armed_same _ _ j (d.others j (λ q. apart n j e q)) ∙ h
  ]

  none_stopped : (t : Sched F D) → IsTable t → IsStopped t t [] []
  none_stopped t h = record {
    disarmed = λ i n e. grind arith;
    others = λ n ne. refl;
    still = λ n e. e;
    stopped = λ i x e. grind arith;
    table = h;
  }

  skipped :
      (t t' : Sched F D) (k : ℕ) (ids ids' : List ℤ)
      → IsStopped t t' ids ids'
      → IsStopped t t' (negsuc k ∷ ids) (negsuc k ∷ ids')
  skipped t t' k ids ids' ih = record {
    disarmed = λ i n e.
        elim i as (λ i. get_elem? (negsuc k ∷ ids) i ≡ some (pos n) → armed t'.slots n ≡ false) [
          | zero ↦ λ q. grind arith
          | suc j ↦ λ q. ih.disarmed j n q
        ]
          e;
    others = λ n ne. ih.others n (λ i. ne (suc i));
    still = ih.still;
    stopped = λ i x e.
        elim i as (λ i. get_elem? (negsuc k ∷ ids') i ≡ some x → is_nonneg x ≡ false) [
          | zero ↦ λ q. same_neg k x q
          | suc j ↦ λ q. ih.stopped j x q
        ]
          e;
    table = ih.table;
  }

  deleted :
      (t t' : Sched F D) (k : ℕ) (ids ids' : List ℤ)
      → IsDeleted t (ss7_schedule_del t (pos k)) k
      → IsStopped ((ss7_schedule_del t (pos k)).0) t' ids ids'
      → IsStopped t t' (pos k ∷ ids) (minus_one ∷ ids')
  deleted t t' k ids ids' d ih = record {
    disarmed = λ i n e.
        elim i as (λ i. get_elem? (pos k ∷ ids) i ≡ some (pos n) → armed t'.slots n ≡ false) [
          | zero ↦ λ q. rw (← (same_pos k n q)) (ih.still k (d.disarmed))
          | suc j ↦ λ q. ih.disarmed j n q
        ]
          e;
    others =
        λ n ne. ih.others n (λ i. ne (suc i)) ∙ d.others n (λ q. ne 0 (ap (λ x. some (pos x)) q));
    still = λ n e. ih.still n (deleted_still t k n d e);
    stopped = λ i x e.
        elim i as (λ i. get_elem? (minus_one ∷ ids') i ≡ some x → is_nonneg x ≡ false) [
          | zero ↦ λ q. same_neg 0 x q
          | suc j ↦ λ q. ih.stopped j x q
        ]
          e;
    table = ih.table;
  }

  pub stop_timers-IsStopped :
      (t : Sched F D) (ids : List ℤ)
      → IsTable t
      → InTable ids
      → IsStopped t (stop_timers t ids).0 ids (stop_timers t ids).1
  unfolding stop_timers stop_timer
  stop_timers-IsStopped t [] h r = none_stopped t h
  stop_timers-IsStopped t (negsuc k ∷ ids) h r =
      skipped t _ k ids _ (stop_timers-IsStopped t ids h (λ i. r (suc i)))
  stop_timers-IsStopped t (pos k ∷ ids) h r =
      let d = ss7_schedule_del_lem t k h (r 0 k refl) in
      deleted t _ k ids _ d
        (stop_timers-IsStopped ((ss7_schedule_del t (pos k)).0) ids (d.table) (λ i. r (suc i)))

  -- The call at `i` was freed.
  pub record IsFreed (t : Sched F D) (calls : List Call) (i : ℕ) (c : Call)
      (r : Sched F D × List Call) : Type 0 where
    pub timers : IsStopped t (r.0) c.timer ((isup_stop_all_timers t c).1.timer)
    pub before : (j : ℕ) → j < i → get_elem? (r.1) j ≡ get_elem? calls j
    pub behind : (j : ℕ) → i ≤ j → get_elem? (r.1) j ≡ get_elem? calls (suc j)

  -- A call of the list whose ids are slots of the table: it is taken out of the list and the others
  -- keep their order; none of its ids is that of a busy slot any more, none of its timers runs, and
  -- the slots of others have not changed.
  pub isup_free_call-IsFreed :
      (t : Sched F D) (calls : List Call) (i : ℕ) (c : Call)
      → get_elem? calls i ≡ some c
      → IsTable t
      → InTable c.timer
      → IsFreed t calls i c (isup_free_call t calls i)
  unfolding isup_free_call isup_stop_all_timers
  isup_free_call-IsFreed t calls i c e h r = rw e (record {
    timers = stop_timers-IsStopped t c.timer h r;
    before = unlink_before calls i;
    behind = unlink_behind calls i;
  })
