-- ===== src/Isup/Running.antt =====
-- A call and its timers, as long as it is in the list and after it was freed.
pub mod Sending
pub mod Requesting
pub mod Groups
pub mod Circuits
pub mod Calls
pub mod Handling
pub mod Expiring
pub mod Scheduled
pub mod Receiving
pub mod History
pub mod Reset
use libss.Base.{
  ℕ, zero, suc, ◌+◌, ◌<◌, ◌≡◌, ◌≢◌, inl, inr, refl, sym, ap, ◌∙◌, Bool, true, false, ◌&&◌, Option,
  none, some, List, [], ◌∷◌, arith, Bool-cases, get_or, set, if◌then◌else◌, ltb, lt→ltb,
}
use libss.Base.Int.{ℤ, pos, negsuc, minus_one, is_nonneg, eq_ℤ}
use libss.Sched.{Sched}
use libss.EventQueue.{Queue, post}
use libss.Isup.Call.{Call}
use libss.Isup.Parms.{Result, overrun, refused, ok}
use libss.Isup.Send.{Outgoing, isup_send_message}
use libss.Isup.Send.Kept.{Holds, isup_send_message-timer}
use libss.Isup.Timers.{all_stopped, stop_timer, isup_stop_all_timers}
use libss.Isup.Flags.{is_clear}
use libss.Isup.World.{
  Owner, timer, IsupEvent, CallWorld, Outside, flags, flag, unflag, start, stop, stop_each,
  stop_all, free, touch, free_if_clear, hand_over, sent_by, send, send_local, lost, if_sent,
  unless_lost, if_posted, event,
}
use libss.Isup.Ownership.{owner_at, IsOwned, isup_max_timers}
use libss.Isup.Ownership.Stopping.{IsIdle, stop_timer-IsOwned, stop_timers-IsIdle}
use libss.Isup.Ownership.Starting.{isup_start_timer-IsOwned}

-- A call of the list, whose timers name the slots that are theirs.
pub record IsRunning (w : CallWorld) : Type 0 where
  pub owned : IsOwned w.sched w.call.timer
  pub alive : w.live ≡ true

-- The same, or a call that was freed and for which no callback is left in the table.
pub record IsSafe (w : CallWorld) : Type 0 where
  pub owned : IsOwned w.sched w.call.timer
  pub ended : w.live ≡ false → (t n : ℕ) → owner_at w.sched n ≢ some (timer t)

pub running-IsSafe : {w : CallWorld} → IsRunning w → IsSafe w
running-IsSafe {w = w} r = record {
  owned = r.owned;
  ended = λ e. absurd (apart (sym (r.alive) ∙ e));
}
  where
    apart : true ≢ false
    apart q = grind arith

-- What the code needs of the functions outside: mtp3_transmit and ss7_notinservice leave the call in
-- the list, ss7_hangup does where it answers that the circuit is idle, and none of them leaves a
-- callback for a call that it has freed or takes a slot that a timer of the call names.
pub record IsGentle (o : Outside) : Type 0 where
  pub transmit : (w : CallWorld) (out : Outgoing) → IsRunning w → IsRunning (o.transmit w out).0
  pub call_null : (w : CallWorld) (k : ℕ) → IsSafe w → IsSafe (o.call_null w k)
  pub hangup : (w : CallWorld) (a b c d : ℕ) → IsRunning w → IsSafe (o.hangup w a b c d).0
  pub hangup_idle :
      (w : CallWorld) (a b c d : ℕ)
      → IsRunning w
      → (o.hangup w a b c d).1 ≡ 2
      → (o.hangup w a b c d).0.live ≡ true
  pub notinservice : (w : CallWorld) (a b : ℕ) → IsRunning w → IsRunning (o.notinservice w a b)

-- What is done to a call of the list.
abbrev pub Runs : (CallWorld → CallWorld) → Type 0
Runs f = (w : CallWorld) → IsRunning w → IsRunning (f w)

abbrev pub Saves : (CallWorld → CallWorld × ℤ) → Type 0
Saves f = (w : CallWorld) → IsRunning w → IsSafe (f w).0

pub flag-Runs : (k : ℕ) → Runs (flag k)
unfolding flag
flag-Runs k w r = record { owned = r.owned; alive = r.alive }

pub unflag-Runs : (ks : List ℕ) → Runs (unflag ks)
unfolding unflag
unflag-Runs ks w r = record { owned = r.owned; alive = r.alive }

pub start-Runs : (t : ℕ) → ltb t isup_max_timers ≡ true → Runs (start t)
unfolding start
start-Runs t h w r = record {
  owned = isup_start_timer-IsOwned w.sched w.now w.call t (w.delays t) (r.owned) (ground arith);
  alive = r.alive;
}

stop_id :
    (w : CallWorld) (t : ℕ) (id : ℤ)
    → get_or w.call.timer t minus_one ≡ id
    → IsRunning w
    → IsRunning (
        if is_nonneg id
        then record w {
          sched = (stop_timer w.sched id).0;
          call = record w.call { timer = set w.call.timer t ((stop_timer w.sched id).1) };
        }
        else w)
unfolding stop_timer
stop_id w t (pos n) e r = record {
  owned = stop_timer-IsOwned w.sched w.call.timer t (pos n) (r.owned) e;
  alive = r.alive;
}
stop_id w t (negsuc n) e r = r

pub stop-Runs : (t : ℕ) → Runs (stop t)
unfolding stop
stop-Runs t w r = stop_id w t (get_or w.call.timer t minus_one) refl r

pub stop_each-Runs : (ts : List ℕ) → Runs (stop_each ts)
unfolding stop_each
stop_each-Runs [] w r = r
stop_each-Runs (t ∷ ts) w r = stop_each-Runs ts (stop t w) (stop-Runs t w r)

stop_all-IsIdle :
    (w : CallWorld)
    → IsOwned w.sched w.call.timer
    → IsIdle ((stop_all w).sched) ((stop_all w).call.timer)
unfolding stop_all isup_stop_all_timers
stop_all-IsIdle w h = stop_timers-IsIdle w.sched w.call.timer h

stop_all_live : (w : CallWorld) → (stop_all w).live ≡ w.live
unfolding stop_all
stop_all_live w = refl

pub stop_all-Runs : Runs stop_all
stop_all-Runs w r = record {
  owned = (stop_all-IsIdle w (r.owned)).owned;
  alive = stop_all_live w ∙ r.alive;
}

pub if_IsSafe :
    {x y : CallWorld} (b : Bool)
    → (b ≡ true → IsSafe x)
    → (b ≡ false → IsSafe y)
    → IsSafe (if b then x else y)
if_IsSafe true h k = h refl
if_IsSafe false h k = k refl

pub if_Saves :
    (b : Bool) (x y : CallWorld × ℤ) → IsSafe (x.0) → IsSafe (y.0) → IsSafe (if b then x else y).0
if_Saves true x y s t = s
if_Saves false x y s t = t

pub if_Runs :
    {x y : CallWorld} (b : Bool) → IsRunning x → IsRunning y → IsRunning (if b then x else y)
if_Runs true r q = r
if_Runs false r q = q

pub free-IsSafe : (w : CallWorld) → IsSafe w → IsSafe (free w)
unfolding free
free-IsSafe w s =
    let i = stop_all-IsIdle w (s.owned) in
    if_IsSafe w.live (λ e. record { owned = i.owned; ended = λ q. i.none_owned }) (λ e. s)

pub touch-IsSafe : (w : CallWorld) → IsSafe w → IsSafe (touch w)
unfolding touch
touch-IsSafe w s = if_IsSafe w.live (λ e. s) (λ e. record { owned = s.owned; ended = s.ended })

pub free_if_clear-IsSafe : (w : CallWorld) → IsSafe w → IsSafe (free_if_clear w).0
unfolding free_if_clear
free_if_clear-IsSafe w s = elim (Bool-cases (is_clear (flags w) && all_stopped w.call.timer)) [
  | inl e ↦ rw e (free-IsSafe w s)
  | inr e ↦ rw e s
]

module _ (o : Outside) (g : IsGentle o) where
  pub lost-IsSafe : (w : CallWorld) → IsSafe w → IsSafe (lost o w)
  unfolding lost
  lost-IsSafe w s =
      let f = free-IsSafe (o.call_null w 0) (g.call_null w 0 s) in
      record { owned = f.owned; ended = f.ended }

  hand_over-IsRunning :
      (w : CallWorld) (out : Outgoing) → IsRunning w → IsRunning (hand_over o w out).0
  unfolding hand_over
  hand_over-IsRunning w out r = g.transmit _ out (record { owned = r.owned; alive = r.alive })

  built_Running :
      (w : CallWorld) (r : Result Outgoing)
      → Holds (λ out. out.call.timer ≡ w.call.timer) r
      → IsRunning w
      → IsRunning (sent_by o (λ c. record w { call = c }) w r).0
  built_Running w overrun h r = record { owned = r.owned; alive = r.alive }
  built_Running w refused h r = r
  built_Running w (ok out) h r =
      hand_over-IsRunning (record w { call = out.call }) out
        (record { owned = rw h (r.owned); alive = r.alive })

  pub send-IsRunning :
      (messagetype : ℕ) (parms : List ℕ) (w : CallWorld)
      → IsRunning w
      → IsRunning (send o messagetype parms w).0
  unfolding send
  send-IsRunning messagetype parms w r =
      built_Running w (isup_send_message w.ss7 w.call messagetype parms (o.memory w) 528)
        (isup_send_message-timer w.ss7 w.call messagetype parms (o.memory w) 528) r

  pub if_sent-IsSafe :
      (k : CallWorld → CallWorld) (x : CallWorld × ℤ)
      → Runs k
      → IsRunning (x.0)
      → IsSafe (if_sent o k x).0
  unfolding if_sent
  if_sent-IsSafe k (w, pos n) h r = running-IsSafe (h w r)
  if_sent-IsSafe k (w, negsuc n) h r = lost-IsSafe w (running-IsSafe r)

  pub unless_lost-IsSafe : (x : CallWorld × ℤ) → IsRunning (x.0) → IsSafe (unless_lost o x).0
  unfolding unless_lost
  unless_lost-IsSafe (w, answer) r = elim (Bool-cases (eq_ℤ answer minus_one)) [
    | inl e ↦ rw e (lost-IsSafe w (running-IsSafe r))
    | inr e ↦ rw e (running-IsSafe r)
  ]

  if_posted-IsSafe :
      (k : CallWorld → CallWorld) (w : CallWorld) (q : Option (Queue IsupEvent))
      → Runs k
      → IsRunning w
      → IsSafe (if_posted o k w q).0
  if_posted-IsSafe k w none h r = free-IsSafe _ (g.call_null w 1 (running-IsSafe r))
  if_posted-IsSafe k w (some q) h r =
      running-IsSafe (h (record w { events = q }) (record { owned = r.owned; alive = r.alive }))

  pub event-IsSafe : (e : IsupEvent) (k : CallWorld → CallWorld) → Runs k → Saves (event o e k)
  unfolding event
  event-IsSafe e k h w r = if_posted-IsSafe k w (post w.events e) h r
