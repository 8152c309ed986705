-- ===== src/Isup/Callbacks.antt =====
-- The run of ss7_sched.c over a table with timers of a call. `others` are the callbacks that are not
-- of this call.
use libss.Base.{ℕ, Option, none, some}
use libss.Sched.{Timeval, Sched, ss7_schedule_run}
use libss.Isup.World.{Owner, timer, other, CallWorld, Outside}
use libss.Isup.Expiry.{isup_timer_expiry}

-- The callback of a slot, by whose the slot is.
unfoldable pub dispatch :
    Outside → (ℕ → CallWorld → CallWorld) → Option Owner → CallWorld → CallWorld
dispatch o others none w = w
dispatch o others (some (timer t)) w = isup_timer_expiry o t w
dispatch o others (some (other k)) w = others k w

abbrev pub put_sched : Sched (Unit {0}) Owner → CallWorld → CallWorld
put_sched s w = record w { sched = s }

unfoldable pub schedule_run :
    Outside → (ℕ → CallWorld → CallWorld) → Timeval → CallWorld → CallWorld
schedule_run o others = ss7_schedule_run (λ w. w.sched) put_sched (λ f. dispatch o others)
