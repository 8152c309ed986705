-- ===== src/Isup/Running/History.antt =====
-- What may happen to a call, in any order: a message that isup_receive has found it for, a
-- request of the application or a setting, a run of the scheduler, the end of all calls, the
-- passing of time.
use mathlib.Core.Path.{subst}
use libss.Base.{ℕ, ◌≡◌, true, some}
use libss.Base.Int.{ℤ, pos}
use libss.Sched.{Timeval}
use libss.Isup.Bytes.{Mem}
use libss.Sched.{ss7_schedule_event, ss7_schedule_del}
use libss.Isup.Ownership.{Table, owner_at, IsOwned}
use libss.Isup.Ownership.Elsewhere.{IsAlike, ss7_schedule_event-IsOwned, ss7_schedule_del-IsOwned}
use libss.Isup.World.{other, CallWorld, Outside, set_call, free}
use libss.Isup.Call.{Call}
use libss.Isup.Parms.{ok}
use libss.Isup.Requests.{Request, perform}
use libss.Isup.Arrival.{isup_receive}
use libss.Isup.Callbacks.{put_sched, schedule_run}
use libss.Isup.Running.{IsSafe, IsGentle, free-IsSafe}
use libss.Isup.Running.Requesting.{perform-Saves}
use libss.Isup.Running.Receiving.{Lands, landed, isup_receive-Lands}
use libss.Isup.Running.Scheduled.{schedule_run-IsSafe}

-- isup_free_all_calls, for one call.
unfoldable pub end_call : Outside → CallWorld → CallWorld
end_call o w = free (o.call_null w 1)

elsewhere-IsSafe :
    (w : CallWorld) (t : Table)
    → IsSafe w
    → IsOwned t w.call.timer × IsAlike w.sched t
    → IsSafe (put_sched t w)
elsewhere-IsSafe w t s (h, a) = record {
  owned = h;
  ended = λ e u n q. s.ended e u n (a.back u n q);
}

module _ (o : Outside) (others : ℕ → CallWorld → CallWorld) where
  -- A call that was freed is found by no message and is not asked for. No step that is counted as an
  -- access outside of an array is among these. The application may set any field but the timers, and
  -- the delays of all timers. Other parts of the program start and stop timers of theirs.
  pub data Step : CallWorld → CallWorld → Type 0 where
    message :
        (opc : ℕ) (m : Mem) (at len : ℕ) (w v : CallWorld) (answer : ℤ)
        → w.live ≡ true
        → isup_receive o opc m at len w ≡ some (ok (v, answer))
        → v.overruns ≡ w.overruns
        → Step w v
    request :
        (q : Request) (w : CallWorld)
        → w.live ≡ true
        → (perform o q w).0.overruns ≡ w.overruns
        → Step w (perform o q w).0
    setting :
        (f : Call → Call) (w : CallWorld) → (f w.call).timer ≡ w.call.timer → Step w (set_call f w)
    delay : (delays : ℕ → ℕ) (w : CallWorld) → Step w (record w { delays = delays })
    run :
        (tv : Timeval) (w : CallWorld)
        → (schedule_run o others tv w).overruns ≡ w.overruns
        → Step w (schedule_run o others tv w)
    end : (w : CallWorld) → w.live ≡ true → Step w (end_call o w)
    scheduled :
        (k ms : ℕ) (w : CallWorld)
        → Step w (put_sched ((ss7_schedule_event w.sched w.now ms tt (other k)).0) w)
    deleted :
        (k n : ℕ) (w : CallWorld)
        → owner_at w.sched n ≡ some (other k)
        → Step w (put_sched ((ss7_schedule_del w.sched (pos n)).0) w)
    wait : (now : Timeval) (w : CallWorld) → Step w (record w { now = now })

  pub data Steps : CallWorld → CallWorld → Type 0 where
    start_here : (w : CallWorld) → Steps w w
    and_then : (u v w : CallWorld) → Steps u v → Step v w → Steps u w

  module _ (g : IsGentle o) (kept : (k : ℕ) (w : CallWorld) → IsSafe w → IsSafe (others k w)) where
    Step-IsSafe : (w v : CallWorld) → Step w v → IsSafe w → IsSafe v
    unfolding end_call
    Step-IsSafe _ _ (message opc m at len w v answer e q n) s = landed (
        subst (Lands w.ss7 w.call m at len) q
          (isup_receive-Lands o g opc m at len w (record { owned = s.owned; alive = e })))
    Step-IsSafe _ _ (request q w e n) s =
        perform-Saves o g q w (record { owned = s.owned; alive = e })
    Step-IsSafe _ _ (setting f w e) s = record { owned = rw e (s.owned); ended = s.ended }
    Step-IsSafe _ _ (delay delays w) s = record { owned = s.owned; ended = s.ended }
    Step-IsSafe _ _ (run tv w n) s = schedule_run-IsSafe o g others kept tv w s
    Step-IsSafe _ _ (end w e) s = free-IsSafe _ (g.call_null w 1 s)
    Step-IsSafe _ _ (scheduled k ms w) s =
        elsewhere-IsSafe w _ s
          (ss7_schedule_event-IsOwned w.sched w.call.timer k ms w.now (s.owned))
    Step-IsSafe _ _ (deleted k n w e) s =
        elsewhere-IsSafe w _ s (ss7_schedule_del-IsOwned w.sched w.call.timer k n (s.owned) e)
    Step-IsSafe _ _ (wait now w) s = record { owned = s.owned; ended = s.ended }

    -- In any sequence, in any order, of these steps without an access outside of an array:
    -- isup_receive handles a message for the call, of any bytes; the application asks for the
    -- call (to send, to start the digit timer, to clear flags, to offer or to free the call),
    -- sets fields of it other than its timers, or sets the delays; the scheduler runs;
    -- isup_free_all_calls comes to the call; others schedule events of theirs or delete them;
    -- time passes. Where the functions outside are gentle and the other callbacks keep this
    -- too: if it began with a call whose timers name exactly the slots of the scheduler's
    -- table that are theirs, they still do, and where the call has been freed by now, no slot
    -- is that of one of its timers.
    pub Steps-IsSafe : (w v : CallWorld) → Steps w v → IsSafe w → IsSafe v
    Steps-IsSafe _ _ (start_here w) s = s
    Steps-IsSafe _ _ (and_then u v w h k) s = Step-IsSafe v w k (Steps-IsSafe u v h s)
