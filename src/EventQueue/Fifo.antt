-- ===== src/EventQueue/Fifo.antt =====
-- The ring as the list of the events that wait.
use libss.Base.{
  ℕ, zero, suc, ◌+◌, ◌-◌, ◌%◌, ◌≤◌, ◌<◌, ◌≡◌, refl, sym, ap, ◌∙◌, inl, inr, Option, none, some,
  List, [], ◌∷◌, ◌++◌, arith, ◌==◌, Bool-cases, length, get_elem?, set, length-set,
  get_elem?-set_self, get_elem?-set_ne, ==_iff, get_elem?-ne_none,
}
use mathlib.Core.Path.{subst}
use mathlib.Core.Bool.{false}
use native.Mathlib.Numerals.{add-one}
use libss.EventQueue.{max_events, Queue, write_event, post, advance, ss7_check_event}

module _ {E : Type 0} where
  -- `n` entries from index `h` on, round the ring.
  abbrev entries : ℕ → ℕ → List E → List (Option E)
  entries zero h q = []
  entries (suc n) h q = get_elem? q h ∷ entries n ((h + 1) % max_events) q

  -- The events that wait, oldest first.
  abbrev pub contents : Queue E → List (Option E)
  contents q = entries q.ev_len q.ev_h q.ev_q

  pub record IsQueue (q : Queue E) : Type 0 where
    pub head : q.ev_h < max_events
    pub fits : q.ev_len ≤ max_events
    pub ring : length q.ev_q ≡ max_events

  entries-set :
      (n m h : ℕ) (q : List E) (e : E)
      → h < max_events
      → n ≤ m
      → m < max_events
      → entries n h (set q ((h + m) % max_events) e) ≡ entries n h q
  entries-set zero m h q e hh nm mm = refl
  entries-set (suc n) zero h q e hh nm mm = absurd (omega arith)
  entries-set (suc n) (suc m) h q e hh nm mm = ground (
    arith,
    get_elem?-set_ne q {i = (h + suc m) % max_events} {j = h} e (omega arith),
    entries-set n m ((h + 1) % max_events) q e (omega arith) (omega arith) (omega arith),
    shift,
  )
    where
      shift : ((h + 1) % max_events + m) % max_events ≡ (h + suc m) % max_events
      shift = omega arith

  entries-snoc :
      (n h : ℕ) (q : List E)
      → h < max_events
      → entries (suc n) h q ≡ entries n h q ++ get_elem? q ((h + n) % max_events) ∷ []
  entries-snoc zero h q hh = ground (arith, wrap)
    where
      wrap : (h + 0) % max_events ≡ h
      wrap = omega arith
  entries-snoc (suc n) h q hh =
      ground (arith, entries-snoc n ((h + 1) % max_events) q (omega arith), shift)
    where
      shift : ((h + 1) % max_events + n) % max_events ≡ (h + suc n) % max_events
      shift = omega arith

  posted : Queue E → E → Queue E
  unfolding write_event
  posted q e = write_event (record q { ev_len = q.ev_len + 1 }) ((q.ev_h + q.ev_len) % max_events) e

  contents-posted :
      (q : Queue E) (e : E)
      → IsQueue q
      → q.ev_len < max_events
      → contents (posted q e) ≡ contents q ++ some e ∷ []
  unfolding posted
  contents-posted q e v h =
      let i = (q.ev_h + q.ev_len) % max_events in
      rw (add-one q.ev_len) (
        rw (entries-snoc q.ev_len q.ev_h (set q.ev_q i e) v.head) (
          rw (entries-set q.ev_len q.ev_len q.ev_h q.ev_q e v.head (omega arith) h)
            (rw (get_elem?-set_self q.ev_q i e (omega (arith, v.ring))) refl)))

  posted-IsQueue : (q : Queue E) (e : E) → IsQueue q → q.ev_len < max_events → IsQueue (posted q e)
  unfolding posted
  posted-IsQueue q e v h = record {
    head = v.head;
    fits = omega arith;
    ring = length-set q.ev_q ((q.ev_h + q.ev_len) % max_events) e ∙ v.ring;
  }

  post_room :
      (q : Queue E) (e : E) → (q.ev_len == max_events) ≡ false → post q e ≡ some (posted q e)
  unfolding post posted
  post_room q e h = ground arith

  roomy : {q : Queue E} → IsQueue q → (q.ev_len == max_events) ≡ false → q.ev_len < max_events
  roomy v h = ground arith

  -- What posting `e` does: refused, on a full queue only; or `e` is the newest event.
  pub data Posts (q : Queue E) (e : E) : Option (Queue E) → Type 0 where
    refused : q.ev_len ≡ max_events → Posts q e none
    added :
        {q' : Queue E}
        → q.ev_len < max_events
        → IsQueue q'
        → contents q' ≡ contents q ++ some e ∷ []
        → Posts q e (some q')

  -- `ss7_next_empty_event` and the filling in refuse an event exactly when 16 events wait, and
  -- otherwise add it behind all that wait, with none of them lost or changed.
  pub post-Posts : (q : Queue E) (e : E) → IsQueue q → Posts q e (post q e)
  unfolding post
  post-Posts q e v = elim (Bool-cases (q.ev_len == max_events)) [
    | inl full ↦ rw (full, post) (refused ((==_iff q.ev_len max_events).0 full))
    | inr room ↦ subst (Posts q e) (sym (post_room q e room)) (
        added (roomy v room) (posted-IsQueue q e v (roomy v room))
          (contents-posted q e v (roomy v room)))
  ]

  -- What taking an event does, with the mtp3_process_event `process`: nothing on an empty queue; or the
  -- oldest event is taken out and its entry is processed.
  pub data Takes (process : Queue E → ℕ → Queue E × Option ℕ) (q : Queue E)
      : Queue E × Option ℕ → Type 0 where
    nothing : contents q ≡ [] → Takes process q (q, none)
    oldest :
        {q' : Queue E} {i : ℕ} {e : E}
        → IsQueue q'
        → get_elem? q'.ev_q i ≡ some e
        → contents q ≡ some e ∷ contents q'
        → Takes process q (process q' i)

  taken :
      (process : Queue E → ℕ → Queue E × Option ℕ) (q : Queue E) (n : ℕ) (o : Option E)
      → IsQueue q
      → q.ev_len ≡ suc n
      → get_elem? q.ev_q q.ev_h ≡ o
      → Takes process q (process (advance q) q.ev_h)
  unfolding advance
  taken process q n none v e p =
      absurd (get_elem?-ne_none q.ev_q q.ev_h (omega (arith, v.ring, v.head)) p)
  taken process q n (some x) v e p =
      oldest (record { head = omega arith; fits = omega (arith, v.fits); ring = v.ring }) p
        (rw e
          (rw p (ap (λ m. some x ∷ entries m ((q.ev_h + 1) % max_events) q.ev_q) (omega arith))))

  -- Whatever mtp3_process_event does: on a well-formed ring ss7_check_event answers null and
  -- changes nothing exactly when no event waits, and otherwise takes the oldest event out,
  -- leaves the others in their order, and with that ring calls mtp3_process_event on the entry
  -- of that event, once, whose answer is its own.
  pub ss7_check_event-Takes :
      (process : Queue E → ℕ → Queue E × Option ℕ) (q : Queue E)
      → IsQueue q
      → Takes process q (ss7_check_event process q)
  unfolding ss7_check_event
  ss7_check_event-Takes process q v = elim (Bool-cases (q.ev_len == 0)) [
    | inl done ↦ rw done (nothing (rw ((==_iff q.ev_len 0).0 done)))
    | inr more ↦ rw more (taken process q (q.ev_len - 1) _ v (ground arith) refl)
  ]

  -- On a full ring, an event that mtp3_process_event posts takes the very entry that it was given.
  pub post-advance :
      (q : Queue E) (e : E)
      → IsQueue q
      → q.ev_len ≡ max_events
      → (q' : Queue E) × (post (advance q) e ≡ some q') × (get_elem? q'.ev_q q.ev_h ≡ some e)
  unfolding post posted advance
  post-advance q e v h = (
    posted (advance q) e,
    post_room (advance q) e (ground arith),
    rw same_entry (get_elem?-set_self q.ev_q q.ev_h e (omega (arith, v.ring, v.head))),
  )
    where
      same_entry : ((q.ev_h + 1) % max_events + (q.ev_len - 1)) % max_events ≡ q.ev_h
      same_entry = omega (arith, v.head)
