-- ===== src/Mtp2/States.antt =====
-- `mtp2_setstate` and what calls it: the timers' expiry functions, `to_idle`, and `mtp2_start`,
-- `mtp2_stop`, `mtp2_alarm` and `mtp2_noalarm`. A result is the world after the call and the `int`
-- that the function returns; the messages that it logs are left out. `emergency` is a flag.
pub mod Graph
mod Tests
use libss.Base.{ℕ, Bool, true, false, Option, none, some, if◌then◌else◌}
use libss.Base.Int.{ℤ, pos, minus_one, eq_ℤ}
use libss.Sched.{ss7_schedule_event, ss7_schedule_del}
use libss.EventQueue.{post}
use libss.Mtp2.Types.{
  LinkState, idle, notaligned, aligned, proving, alignedready, inservice, alarm, sio, sin, sie,
  sios, fisu, Link, Callback, t1_expiry, t2_expiry, t3_expiry, t4_expiry, t7_expiry, Event, link_up,
  link_down, World,
}
use libss.Mtp2.Buffers.{schedule, reset_mtp}

unfoldable pub set_state : World → LinkState → World
set_state w s = record w { link = record w.link { state = s } }

unfoldable pub start_t1 : World → World
unfolding schedule
start_t1 w =
    let (w', x) = schedule w w.link.timers.t1 t1_expiry in
    record w' { link = record w'.link { t1 = x } }

unfoldable pub start_t2 : World → World
unfolding schedule
start_t2 w =
    let (w', x) = schedule w w.link.timers.t2 t2_expiry in
    record w' { link = record w'.link { t2 = x } }

unfoldable pub start_t3 : World → World
unfolding schedule
start_t3 w =
    let (w', x) = schedule w w.link.timers.t3 t3_expiry in
    record w' { link = record w'.link { t3 = x } }

unfoldable pub start_t4 : World → World
unfolding schedule
start_t4 w =
    let (w', x) = schedule w w.link.provingperiod t4_expiry in
    record w' { link = record w'.link { t4 = x } }

unfoldable pub stop_t1 : World → World
stop_t1 w =
    let (t, x) = ss7_schedule_del w.master.sched w.link.t1 in
    record { link = record w.link { t1 = x }; master = record w.master { sched = t } }

unfoldable pub stop_t2 : World → World
stop_t2 w =
    let (t, x) = ss7_schedule_del w.master.sched w.link.t2 in
    record { link = record w.link { t2 = x }; master = record w.master { sched = t } }

unfoldable pub stop_t3 : World → World
stop_t3 w =
    let (t, x) = ss7_schedule_del w.master.sched w.link.t3 in
    record { link = record w.link { t3 = x }; master = record w.master { sched = t } }

unfoldable pub stop_t4 : World → World
stop_t4 w =
    let (t, x) = ss7_schedule_del w.master.sched w.link.t4 in
    record { link = record w.link { t4 = x }; master = record w.master { sched = t } }

unfoldable pub mtp2_lssu : World → ℕ → World × ℤ
mtp2_lssu w lssu_status =
    (record w { link = record w.link { flag_write = true; autotxsutype = lssu_status } }, pos 0)

unfoldable pub mtp2_fisu : World → World × ℤ
mtp2_fisu w = (record w { link = record w.link { flag_write = true; autotxsutype = fisu } }, pos 0)

-- `if (f()) { error; return -1; }`, and what follows it.
abbrev pub unless_failed : World × ℤ → (World → World × ℤ) → World × ℤ
unless_failed (w, r) k = if eq_ℤ r (pos 0) then k w else (w, minus_one)

-- `ss7_next_empty_event` and the filling in; without an entry the caller returns -1.
abbrev pub with_event : World → Event → (World → World × ℤ) → World × ℤ
with_event w e k = elim (post w.master.events e) [
  | none ↦ (w, minus_one)
  | some q ↦ k (record w { master = record w.master { events = q } })
]

-- The case MTP_IDLE, which does not look at the new state.
unfoldable pub from_idle : World → World × ℤ
unfolding start_t2 mtp2_lssu set_state
from_idle w = unless_failed (mtp2_lssu (start_t2 w) sio) λ w'. (set_state w' notaligned, pos 0)

-- Its call of `mtp2_setstate` finds the state MTP_IDLE.
unfoldable pub to_idle : World → World × ℤ
unfolding from_idle
to_idle w = unless_failed (mtp2_lssu (set_state w idle) sios) λ w'. ((from_idle w').0, pos 0)

-- The LSSU for a normal or an emergency alignment.
unfoldable pub align_lssu : World → World × ℤ
unfolding mtp2_lssu
align_lssu w = mtp2_lssu w (if w.link.emergency then sie else sin)

unfoldable pub from_notaligned : World → LinkState → World × ℤ
unfolding to_idle start_t3 start_t4 align_lssu set_state
from_notaligned w idle = to_idle w
from_notaligned w aligned =
    unless_failed (align_lssu (start_t3 w)) λ w'. (set_state w' aligned, pos 0)
from_notaligned w proving =
    unless_failed (align_lssu (start_t4 w)) λ w'. (set_state w' proving, pos 0)
from_notaligned w s = (set_state w s, pos 0)

unfoldable pub from_aligned : World → LinkState → World × ℤ
unfolding to_idle start_t4 set_state
from_aligned w idle = to_idle w
from_aligned w proving = (set_state (start_t4 w) proving, pos 0)
from_aligned w s = (set_state w s, pos 0)

unfoldable pub from_proving : World → LinkState → World × ℤ
unfolding to_idle start_t1 start_t4 align_lssu mtp2_fisu set_state
from_proving w idle = to_idle w
from_proving w proving = (set_state (start_t4 w) proving, pos 0)
from_proving w aligned = unless_failed (align_lssu w) λ w'. (set_state w' aligned, pos 0)
from_proving w alignedready =
    unless_failed (mtp2_fisu (start_t1 w)) λ w'. (set_state w' alignedready, pos 0)
from_proving w s = (set_state w s, pos 0)

unfoldable pub from_alignedready : World → LinkState → World × ℤ
unfolding to_idle start_t1 stop_t1 mtp2_fisu set_state
from_alignedready w idle = to_idle w
from_alignedready w alignedready =
    unless_failed (mtp2_fisu (start_t1 w)) λ w'. (set_state w' alignedready, pos 0)
from_alignedready w inservice =
    with_event (stop_t1 w) (link_up w.link.addr) λ w'. (set_state w' inservice, pos 0)
from_alignedready w s = (set_state w s, pos 0)

unfoldable pub from_inservice : World → LinkState → World × ℤ
unfolding to_idle
from_inservice w inservice = (w, pos 0)
from_inservice w s = with_event w (link_down w.link.addr) to_idle

-- The outer `switch`: each case stops the timer of the state that it leaves.
unfoldable pub leave : LinkState → World → LinkState → World × ℤ
unfolding from_idle from_notaligned from_aligned from_proving from_alignedready from_inservice
    stop_t1 stop_t2 stop_t3 stop_t4
leave alarm w s = (w, pos 0)
leave idle w s = from_idle w
leave notaligned w s = from_notaligned (stop_t2 w) s
leave aligned w s = from_aligned (stop_t3 w) s
leave proving w s = from_proving (stop_t4 w) s
leave alignedready w s = from_alignedready (stop_t1 w) s
leave inservice w s = from_inservice w s

unfoldable pub mtp2_setstate : World → LinkState → World × ℤ
unfolding leave
mtp2_setstate w newstate = leave w.link.state w newstate

-- `t1_expiry`, `t2_expiry` and `t3_expiry` have the same body.
unfoldable pub timer_expiry : World → World
unfolding mtp2_setstate
timer_expiry w = (mtp2_setstate w idle).0

unfoldable pub t4_expired : World → World
unfolding mtp2_setstate
t4_expired w = (mtp2_setstate w alignedready).0

unfoldable pub t7_expired : World → World
unfolding mtp2_setstate
t7_expired w = (mtp2_setstate (record w { link = record w.link { t7 = minus_one } }) idle).0

-- The call of a scheduled function of level 2.
unfoldable pub expire : Callback → World → World
unfolding timer_expiry t4_expired t7_expired
expire t4_expiry w = t4_expired w
expire t7_expiry w = t7_expired w
expire (Callback.other f) w = w
expire f w = timer_expiry w

is_idle : LinkState → Bool
is_idle idle = true
is_idle s = false

unfoldable pub mtp2_start : World → Bool → World × ℤ
unfolding reset_mtp mtp2_setstate is_idle
mtp2_start w emergency =
    let w' = record w { link = record (reset_mtp w.link) { emergency = emergency } } in
    if is_idle w'.link.state then mtp2_setstate w' notaligned else (w', pos 0)

unfoldable pub mtp2_stop : World → World × ℤ
unfolding mtp2_setstate
mtp2_stop w = mtp2_setstate w idle

unfoldable pub mtp2_alarm : World → World × ℤ
unfolding set_state
mtp2_alarm w = (set_state w alarm, pos 0)

unfoldable pub mtp2_noalarm : World → World × ℤ
unfolding set_state
mtp2_noalarm w = (set_state w idle, pos 0)
