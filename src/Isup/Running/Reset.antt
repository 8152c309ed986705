-- ===== src/Isup/Running/Reset.antt =====
-- The supervision of a circuit that is being reset.
use libss.Base.{
  ℕ, ◌<◌, ◌≡◌, ◌≢◌, refl, sym, ◌∙◌, inl, inr, true, false, some, List, ◌==◌, get_elem?, get_or,
  get_elem?-set_self, ltb, arith, ◌⊎◌,
}
use libss.Base.Int.{ℤ, pos, negsuc, minus_one}
use libss.Sched.{Timeval, max_sched, ss7_schedule_event}
use libss.Sched.Alloc.{armed, IsTable, ss7_schedule_event_lem, ss7_schedule_del_lem}
use libss.Isup.Send.{Outgoing}
use libss.Isup.Timers.{stop_timer, isup_start_timer, isup_stop_all_timers}
use libss.Isup.Timers.Stopped.{deleted_still, stop_timers-IsStopped}
use libss.Isup.World.{timer, CallWorld, Outside, flag, start, stop_all, hand_over, sent_by, send}
use libss.Isup.Ownership.{Table, owner_at, IsOwned, isup_max_timers, in_table}
use libss.Isup.Ownership.Stopping.{get_or_pos, owned-InTable, stop_timer-IsOwned}
use libss.Isup.Parms.{Result, overrun, refused, ok}
use libss.Isup.Messages.{empty_params}
use libss.Isup.Flags.{isup_sent_rsc}
use libss.Isup.Expiry.{expired, on_t5, on_t17, expiries, isup_timer_expiry}
use libss.Isup.Running.Expiring.{IsFired}
use libss.Isup.Running.{IsRunning, IsGentle, start-Runs, flag-Runs, stop_all-Runs, send-IsRunning}

-- A slot other than the first is free.
abbrev pub HasRoom : Table → Type 0
HasRoom s = (i : ℕ) × (0 < i) × (i < max_sched) × (armed s.slots i ≡ false)

-- The timer runs: it names a slot that will call back for it.
abbrev pub IsTimed : CallWorld → ℕ → Type 0
IsTimed w t =
    (n : ℕ) × (get_elem? w.call.timer t ≡ some (pos n)) × (owner_at w.sched n ≡ some (timer t))

stop_room :
    (s : Table) (ids : List ℤ) (t : ℕ) (id : ℤ)
    → IsOwned s ids
    → get_or ids t minus_one ≡ id
    → HasRoom s
    → HasRoom ((stop_timer s id).0)
unfolding stop_timer
stop_room s ids t (pos n) h e (i, a, b, f) =
    let below = in_table s n (timer t) (h.table) (h.ours t n (get_or_pos ids t n e)) in
    (i, a, b, deleted_still s n i (ss7_schedule_del_lem s n (h.table) below) f)
stop_room s ids t (negsuc n) h e r = r

scheduled_taken :
    (s : Table) (now : Timeval) (ms t : ℕ)
    → IsTable s
    → HasRoom s
    → (x : ℕ) × ((ss7_schedule_event s now ms tt (timer t)).1 ≡ pos x)
scheduled_taken s now ms t h (i, a, b, f) = elim (ss7_schedule_event_lem s now ms tt (timer t) h) [
  | inl q ↦ absurd (apart (sym (q.busy i a b) ∙ f))
  | inr (x, k) ↦ (x, k.answer)
]
  where
    apart : true ≢ false
    apart q = grind arith

-- A timer with a delay, where a slot is free.
start-IsTimed :
    (t : ℕ) (w : CallWorld)
    → ltb t isup_max_timers ≡ true
    → (w.delays t == 0) ≡ false
    → HasRoom w.sched
    → IsRunning w
    → IsTimed (start t w) t
unfolding start isup_start_timer
start-IsTimed t w h e room r =
    let stopped =
      stop_timer-IsOwned w.sched w.call.timer t (get_or w.call.timer t minus_one) (r.owned) refl in
    let taken =
      scheduled_taken _ w.now (w.delays t) t (stopped.table)
        (stop_room w.sched w.call.timer t _ (r.owned) refl room) in
    (taken.0, named (taken.0) (taken.1), owned (taken.0) (named (taken.0) (taken.1)))
  where
    short : t < isup_max_timers
    short = ground arith

    named :
        (x : ℕ)
        → ((ss7_schedule_event
              ((stop_timer w.sched (get_or w.call.timer t minus_one)).0)
              w.now
              (w.delays t)
              tt
              (timer t)).1
            ≡ pos x)
        → get_elem? (start t w).call.timer t ≡ some (pos x)
    named x q =
        rw (e, q) (get_elem?-set_self w.call.timer t (pos x) (omega (arith, short, r.owned.count)))

    owned :
        (x : ℕ)
        → get_elem? (start t w).call.timer t ≡ some (pos x)
        → owner_at (start t w).sched x ≡ some (timer t)
    owned x q = (start-Runs t h w r).owned.ours t x q

-- Where T17 has a delay and a slot is free.
pub record IsReady (w : CallWorld) : Type 0 where
  pub room : HasRoom w.sched
  pub delay : (w.delays 17 == 0) ≡ false

-- Where the functions outside leave a slot free and do not touch the delays.
pub record IsSparing (o : Outside) : Type 0 where
  pub transmit : (w : CallWorld) (out : Outgoing) → IsReady w → IsReady (o.transmit w out).0
  pub notinservice : (w : CallWorld) (a b : ℕ) → IsReady w → IsReady (o.notinservice w a b)

stop_all-IsReady : (w : CallWorld) → IsOwned w.sched w.call.timer → IsReady w → IsReady (stop_all w)
unfolding stop_all isup_stop_all_timers
stop_all-IsReady w h r = record {
  room = (
    r.room.0,
    r.room.1,
    r.room.2,
    (stop_timers-IsStopped w.sched w.call.timer (h.table)
          (owned-InTable w.sched w.call.timer h)).still
        (r.room.0) (r.room.3),
  );
  delay = r.delay;
}

module _ (o : Outside) (g : IsGentle o) (p : IsSparing o) where
  built-IsReady :
      (w : CallWorld) (x : Result Outgoing)
      → IsReady w
      → IsReady (sent_by o (λ c. record w { call = c }) w x).0
  unfolding hand_over
  built-IsReady w overrun r = record { room = r.room; delay = r.delay }
  built-IsReady w refused r = r
  built-IsReady w (ok out) r = p.transmit _ out (record { room = r.room; delay = r.delay })

  send-IsReady :
      (message : ℕ) (parms : List ℕ) (w : CallWorld)
      → IsReady w
      → IsReady (send o message parms w).0
  unfolding send
  send-IsReady message parms w r = built-IsReady w _ r

  flag-IsReady : (k : ℕ) (w : CallWorld) → IsReady w → IsReady (flag k w)
  unfolding flag
  flag-IsReady k w r = record { room = r.room; delay = r.delay }

  on_t17-IsTimed : (w : CallWorld) → IsRunning w → IsReady w → IsTimed (on_t17 o w) 17
  unfolding on_t17
  on_t17-IsTimed w r q =
      let running = flag-Runs isup_sent_rsc _ (stop_all-Runs w r) in
      let stopped = stop_all-IsReady w (r.owned) q in
      let ready = send-IsReady 0x12 empty_params _ (flag-IsReady isup_sent_rsc _ stopped) in
      start-IsTimed 17 _ refl (ready.delay) (ready.room)
        (send-IsRunning o g 0x12 empty_params _ running)

  on_t5-IsTimed : (w : CallWorld) → IsRunning w → IsReady w → IsTimed (on_t5 o w) 17
  unfolding on_t5
  on_t5-IsTimed w r q =
      on_t17-IsTimed _ (g.notinservice w w.call.cic w.call.dpc r)
        (p.notinservice w w.call.cic w.call.dpc q)

  fired-IsRunning : (t : ℕ) (w : CallWorld) → IsFired t w → IsRunning (expired t w)
  fired-IsRunning t w f = record { owned = f.owned; alive = f.alive }

  expired-IsReady : (t : ℕ) (w : CallWorld) → IsReady w → IsReady (expired t w)
  expired-IsReady t w q = record { room = q.room; delay = q.delay }

  -- When T5 or T17 of a call expires, where T17 has a delay, a slot of the scheduler's table is free and
  -- the functions outside are gentle and leave a slot free and the delays as they are: T17 runs
  -- again.
  pub isup_timer_expiry-IsTimed :
      (t : ℕ) (w : CallWorld)
      → (t ≡ 5) ⊎ (t ≡ 17)
      → IsFired t w
      → IsReady w
      → IsTimed (isup_timer_expiry o t w) 17
  unfolding isup_timer_expiry expiries
  isup_timer_expiry-IsTimed t w (inl e) f q =
      rw e (on_t5-IsTimed _ (fired-IsRunning 5 w (rw⁻¹ e f)) (expired-IsReady 5 w q))
  isup_timer_expiry-IsTimed t w (inr e) f q =
      rw e (on_t17-IsTimed _ (fired-IsRunning 17 w (rw⁻¹ e f)) (expired-IsReady 17 w q))
