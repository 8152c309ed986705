-- ===== src/Isup/Timers.antt =====
-- The timers of a call in the table of the scheduler, and the end of a call. A call is referred to by
-- its position in the list; ids of timers are slots of the table.
pub mod Stopped
use libss.Base.{
  ℕ, zero, suc, Bool, true, not, ◌&&◌, ◌==◌, Option, none, some, List, [], ◌∷◌, get_elem?, get_or,
  set, if◌then◌else◌,
}
use libss.Base.Int.{ℤ, pos, negsuc, minus_one, is_nonneg}
use libss.Sched.{Timeval, Sched, ss7_schedule_event, ss7_schedule_del}
use libss.Isup.Call.{Call}
use libss.Isup.Flags.{is_clear}

-- The list without its call at that position.
unfoldable pub unlink : List Call → ℕ → List Call
unlink [] i = []
unlink (c ∷ cs) zero = cs
unlink (c ∷ cs) (suc i) = c ∷ unlink cs i

-- Whether none of the timers runs.
unfoldable pub all_stopped : List ℤ → Bool
all_stopped [] = true
all_stopped (id ∷ ids) = not (is_nonneg id) && all_stopped ids

module _ {F D : Type 0} where
  -- isup_stop_timer on one entry of the array.
  unfoldable pub stop_timer : Sched F D → ℤ → Sched F D × ℤ
  stop_timer t (pos n) = ((ss7_schedule_del t (pos n)).0, minus_one)
  stop_timer t (negsuc n) = (t, negsuc n)

  -- The loop over the array.
  unfoldable pub stop_timers : Sched F D → List ℤ → Sched F D × List ℤ
  stop_timers t [] = (t, [])
  stop_timers t (id ∷ ids) =
      let r = stop_timer t id in let s = stop_timers (r.0) ids in (s.0, r.1 ∷ s.1)

  unfoldable pub isup_stop_all_timers : Sched F D → Call → Sched F D × Call
  isup_stop_all_timers t c = let r = stop_timers t c.timer in (r.0, record c { timer = r.1 })

  -- `delay` is the entry of `ss7->isup_timers`. Memory for what the callback is given is taken for
  -- granted, as the code does.
  unfoldable pub isup_start_timer :
      Sched F D → Timeval → Call → ℕ → ℕ → F → D → Sched F D × Call × ℤ
  isup_start_timer t now c timer delay callback param =
      let r = stop_timer t (get_or c.timer timer minus_one) in
      let s = ss7_schedule_event (r.0) now delay callback param in
      let c' = record c { timer = set c.timer timer (s.1) } in
      if delay == 0
      then (t, c, minus_one)
      else (s.0, c', if is_nonneg (s.1) then pos 0 else minus_one)

  -- A call that is not in the list is left alone.
  abbrev pub free_found : Sched F D → List Call → ℕ → Option Call → Sched F D × List Call
  free_found t calls i none = (t, calls)
  free_found t calls i (some c) = ((isup_stop_all_timers t c).0, unlink calls i)

  unfoldable pub isup_free_call : Sched F D → List Call → ℕ → Sched F D × List Call
  isup_free_call t calls i = free_found t calls i (get_elem? calls i)

  -- None is the NULL that is returned where the call was freed.
  abbrev pub free_clear : Sched F D → List Call → ℕ → Option Call → Sched F D × List Call × Option ℕ
  free_clear t calls i none = (t, calls, some i)
  free_clear t calls i (some c) =
      let r = isup_free_call t calls i in
      if is_clear c.got_sent_msg && all_stopped c.timer
      then (r.0, r.1, none)
      else (t, calls, some i)

  unfoldable pub isup_free_call_if_clear :
      Sched F D → List Call → ℕ → Sched F D × List Call × Option ℕ
  isup_free_call_if_clear t calls i = free_clear t calls i (get_elem? calls i)
