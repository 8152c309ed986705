-- ===== src/Isup/CallExamples.antt =====
-- A call with a timer that runs, and functions outside that do nothing.
use libss.Base.{
  Option, ◌∙◌, ℕ, zero, suc, ◌≡◌, ◌≢◌, inr, refl, true, false, none, some, [], get_elem?, set,
  replicate, length-replicate, arith, if◌then◌else◌, ◌==◌,
}
use libss.Base.Int.{ℤ, pos, negsuc}
use libss.Mtp2.Transmit.{itu}
use libss.Sched.{Timeval, Slot}
use libss.EventQueue.{new_queue, post, write_event, ss7_next_empty_event}
use libss.Isup.Flags.{isup_sent_iam, with_flag}
use libss.Isup.World.{Owner, timer, cvt, CallWorld, Outside, start, event}
use libss.Isup.Bytes.{Mem}
use libss.Isup.Parms.{Result, ok}
use libss.Isup.Receive.{
  isup_read, get_cic, read_fixed, read_variable, read_mandatory, enter_optional, read_optional,
}
use libss.Isup.Messages.{message_of, find_message, messages, ansi_exception, received_params}
use libss.Isup.Handlers.{isup_switch, handlers, handle}
use libss.Isup.CircuitHandlers.{on_blo}
use libss.Isup.Arrival.{go_by, isup_receive}
use libss.Isup.Callbacks.{schedule_run}
use libss.Isup.Expiry.{isup_timer_expiry}
use libss.Isup.Ownership.{owner_at}
use libss.Isup.Running.{IsRunning, IsSafe, IsGentle, running-IsSafe, start-Runs}
use libss.Isup.Running.Expiring.{IsFired}
use libss.Isup.Running.Scheduled.{schedule_run-IsSafe}
use libss.Isup.Running.History.{end_call, start_here, and_then, message, request, end, Steps-IsSafe}
use libss.Isup.Requests.{perform, ask_digittimeout, isup_start_digittimeout}
use libss.Isup.Running.Reset.{IsReady, IsSparing, IsTimed, isup_timer_expiry-IsTimed}
use libss.Isup.Sample.{switch, call, zeros}

abbrev empty_slot : Slot (Unit {0}) Owner
empty_slot = record { when = record { tv_sec = 0; tv_usec = 0 }; callback = none; arg = none }

abbrev at_second : ℕ → Timeval
at_second s = record { tv_sec = s; tv_usec = 0 }

-- The call has sent its IAM.
abbrev idle_world : CallWorld
idle_world = record {
  ss7 = switch itu;
  delays = λ t. 15000;
  now = at_second 100;
  sched = record { slots = replicate 512 empty_slot; stray = 0 };
  call = record call { got_sent_msg = with_flag isup_sent_iam (λ k. false) };
  live = true;
  events = new_queue (cvt 0);
  sent = [];
  stale = 0;
  overruns = 0;
}

-- T7 runs.
abbrev calling_world : CallWorld
calling_world = start 7 idle_world

abbrev silent : Outside
silent = record {
  memory = λ w. some zeros;
  transmit = λ w out. (w, pos 0);
  call_null = λ w k. w;
  hangup = λ w a b c d. (w, 1);
  notinservice = λ w a b. w;
}

silent-IsGentle : IsGentle silent
silent-IsGentle = record {
  transmit = λ w out r. r;
  call_null = λ w k s. s;
  hangup = λ w a b c d r. running-IsSafe r;
  hangup_idle = λ w a b c d r e. r.alive;
  notinservice = λ w a b r. r;
}

silent-IsSparing : IsSparing silent
silent-IsSparing = record { transmit = λ w out r. r; notinservice = λ w a b r. r }

get_elem?-replicate :
    {A : Type 0} (n i : ℕ) (a b : A) → get_elem? (replicate n a) i ≡ some b → some a ≡ some b
get_elem?-replicate zero i a b e = absurd (grind arith)
get_elem?-replicate (suc n) zero a b e = e
get_elem?-replicate (suc n) (suc i) a b e = get_elem?-replicate n i a b e

unowned :
    (n i : ℕ) (o : Owner) (s : ℕ)
    → owner_at (record { slots = replicate n empty_slot; stray = s }) i ≢ some o
unfolding owner_at
unowned zero i o s e = grind arith
unowned (suc n) zero o s e = grind arith
unowned (suc n) (suc i) o s e = unowned n i o s e

idle_world-IsRunning : IsRunning idle_world
idle_world-IsRunning = record {
  owned = record {
    table = length-replicate 512 empty_slot;
    count = length-replicate 64 (negsuc 0);
    ours = λ t n e. absurd (minus (get_elem?-replicate 64 t (negsuc 0) (pos n) e));
    back = λ t n e. absurd (unowned 512 n (timer t) 0 e);
  };
  alive = refl;
}
  where
    minus : {n : ℕ} → some (negsuc 0) ≢ some (pos n)
    minus e = grind arith

calling_world-IsRunning : IsRunning calling_world
calling_world-IsRunning = start-Runs 7 refl idle_world idle_world-IsRunning

-- An ACM for circuit 0.
abbrev acm : Mem
acm i = if i == 2 then 6 else 0

-- T7 has expired by then.
schedule_run-IsSafe_example : IsSafe (schedule_run silent (λ k w. w) (at_second 200) calling_world)
schedule_run-IsSafe_example =
    schedule_run-IsSafe silent silent-IsGentle (λ k w. w) (λ k w s. s) (at_second 200) calling_world
      (running-IsSafe calling_world-IsRunning)

-- A BLO for circuit 17.
abbrev blo_message : Mem
blo_message i = if i == 0 then 17 else if i == 2 then 19 else 0

-- The world that a message leads to.
abbrev world_of : Option (Result (CallWorld × ℤ)) → CallWorld
world_of (some (ok (w, answer))) = w
world_of v = calling_world

abbrev blocked : CallWorld
blocked = world_of (isup_receive silent 200 blo_message 0 3 idle_world)

blocked_is :
    (isup_receive silent 200 blo_message 0 3 idle_world ≡ some (ok (blocked, pos 0)))
    × (blocked.overruns ≡ idle_world.overruns)
    × (blocked.live ≡ true)
unfolding isup_receive isup_read isup_switch on_blo event message_of find_message messages
    ansi_exception received_params get_cic read_fixed read_variable read_mandatory enter_optional
    read_optional handlers handle go_by post write_event ss7_next_empty_event new_queue
blocked_is = (refl, refl, refl)

-- The application then asks for the digit timer, and the link goes down.
abbrev asked : CallWorld
asked = (perform silent ask_digittimeout blocked).0

asked_is : (asked.overruns ≡ blocked.overruns) × (asked.live ≡ blocked.live)
unfolding perform isup_start_digittimeout isup_receive
asked_is = (refl, refl)

Steps-IsSafe_example : IsSafe (end_call silent asked)
Steps-IsSafe_example =
    Steps-IsSafe silent (λ k w. w) silent-IsGentle (λ k w s. s) idle_world (end_call silent asked)
      (and_then idle_world asked _
        (and_then idle_world blocked _
          (and_then idle_world idle_world _ (start_here idle_world) (
            message 200 blo_message 0 3 idle_world blocked (pos 0) refl (blocked_is.0)
              (blocked_is.1)))
          (request ask_digittimeout blocked (blocked_is.2) (asked_is.0)))
        (end asked (asked_is.1 ∙ blocked_is.2)))
      (running-IsSafe idle_world-IsRunning)

-- The other end of the circuit.
abbrev other_end : CallWorld
other_end = record idle_world { ss7 = record (switch itu) { pc = 200 } }

abbrev this_end : CallWorld
this_end = record idle_world { ss7 = record (switch itu) { pc = 100 } }

-- Timer 17 has expired; slot 3 was its slot.
abbrev resetting : CallWorld
resetting = record idle_world {
  call = record call { timer = set (replicate 64 (negsuc 0)) 17 (pos 3) };
}

resetting-IsFired : IsFired 17 resetting
resetting-IsFired = record { owned = idle_world-IsRunning.owned; alive = refl }

resetting-IsReady : IsReady resetting
resetting-IsReady = record { room = (1, omega arith, omega arith, refl); delay = refl }

isup_timer_expiry-IsTimed_example : IsTimed (isup_timer_expiry silent 17 resetting) 17
isup_timer_expiry-IsTimed_example =
    isup_timer_expiry-IsTimed silent silent-IsGentle silent-IsSparing 17 resetting (inr refl)
      resetting-IsFired resetting-IsReady
