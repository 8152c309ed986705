-- ===== src/Isup/World.antt =====
-- What the procedures of isup.c change: one call with the part of `struct ss7` that it shares, and
-- the functions that they call outside of isup.c. The entries of the scheduler's table for this call
-- carry isup_timer_expiry with the number of the timer; those of others carry another owner.
use libss.Base.{
  ℕ, ◌+◌, Bool, true, false, ◌&&◌, Option, none, some, List, [], ◌∷◌, ◌++◌, if◌then◌else◌, get_or,
  set, take, drop,
}
use libss.Base.Int.{ℤ, pos, minus_one, is_nonneg, eq_ℤ}
use libss.Sched.{Timeval, Sched}
use libss.EventQueue.{Queue, post}
use libss.Isup.Bytes.{Mem}
use libss.Isup.Call.{
  Number, GenericAddress, GenericDigits, Lspi, Charge, Redirection, Name, Cot, Cug, CallRef, Call,
  Flags, Ss7,
}
use libss.Isup.Parms.{Result, overrun, refused, ok}
use libss.Isup.Send.{Outgoing, isup_send_message}
use libss.Isup.Flags.{is_clear, with_flag, without}
use libss.Isup.Timers.{all_stopped, stop_timer, isup_stop_all_timers, isup_start_timer}

-- The fields of an ISUP_EVENT_IAM that are copied from the call.
pub record IamEvent : Type 0 where
  pub transcap : ℕ
  pub cot_check_required : ℕ
  pub cot_performed_on_previous_cic : ℕ
  pub called_party_num : List ℕ
  pub called_nai : ℕ
  pub calling : Number
  pub charge : Charge
  pub oli_ani2 : ℤ
  pub gen_add : GenericAddress
  pub gen_dig : GenericDigits
  pub jip_number : List ℕ
  pub name : Name
  pub lspi : Lspi
  pub orig_called : Number
  pub redirecting : Number
  pub redirect_counter : ℕ
  pub redirection : Redirection
  pub calling_party_cat : ℕ
  pub cug : Cug
  pub echocontrol_ind : ℕ

-- The circuits of a group, and what was received and sent for them.
pub record GroupEvent : Type 0 where
  pub startcic : ℕ
  pub endcic : ℕ
  pub type : ℕ
  pub status : List ℕ
  pub sent_endcic : ℕ
  pub sent_type : ℕ
  pub sent_status : List ℕ

-- The union `ss7_event`, by the constants ISUP_EVENT_*, for isup.c. The pointer to the call is left
-- out: it is that of the CallWorld. After the circuit and the point code (`opc`) come the other fields in
-- the order in which the code writes them.
pub data IsupEvent : Type 0 where
  iam : ℕ → ℕ → Flags → IamEvent → IsupEvent
  sam : ℕ → ℕ → List ℕ → ℕ → Flags → Cot → IsupEvent
  cqm grs : ℕ → ℕ → ℕ → IsupEvent
  gra : ℕ → ℕ → ℕ → List ℕ → ℕ → Flags → IsupEvent
  rsc blo bla uba rlc ccr : ℕ → ℕ → Flags → IsupEvent
  ubl lpa ucic : ℕ → ℕ → IsupEvent
  cvt : ℕ → IsupEvent
  rel : ℕ → ℕ → ℕ → Flags → IsupEvent
  acm : ℕ → ℕ → CallRef → ℕ → ℕ → Flags → IsupEvent
  con anm : ℕ → ℕ → Number → ℕ → Flags → IsupEvent
  cpg : ℕ → ℕ → ℕ → Flags → ℕ → Number → IsupEvent
  cot : ℕ → ℕ → ℕ → ℕ → Flags → IsupEvent
  cgb cgu : ℕ → ℕ → ℕ → ℕ → List ℕ → IsupEvent
  cgba cgua : ℕ → GroupEvent → Flags → IsupEvent
  frj faa far : ℕ → ℕ → CallRef → IsupEvent
  sus res : ℕ → ℕ → ℕ → Flags → IsupEvent
  digittimeout : ℕ → ℕ → Cot → IsupEvent

-- Whose an entry of the scheduler's table is.
pub data Owner : Type 0 where
  timer : ℕ → Owner
  other : ℕ → Owner

-- `delays` are `isup_timers`, `sent` the messages handed to level 3, oldest first. `live` ends with
-- isup_free_call. `stale` counts the reads of freed memory, of which the code only prints the value.
-- `overruns` counts the accesses outside of arrays: C leaves undefined what comes of one, so a world
-- in which the count has gone up says nothing about the code.
pub record CallWorld : Type 0 where
  pub ss7 : Ss7
  pub delays : ℕ → ℕ
  pub now : Timeval
  pub sched : Sched (Unit {0}) Owner
  pub call : Call
  pub live : Bool
  pub events : Queue IsupEvent
  pub sent : List Outgoing
  pub stale : ℕ
  pub overruns : ℕ

-- What is called outside of isup.c: whether there is memory for a message, the answer of
-- mtp3_transmit, and the functions of the application. ss7_hangup is given the circuit, the point
-- code, the cause and what to do.
pub record Outside : Type 0 where
  pub memory : CallWorld → Option Mem
  pub transmit : CallWorld → Outgoing → CallWorld × ℤ
  pub call_null : CallWorld → ℕ → CallWorld
  pub hangup : CallWorld → ℕ → ℕ → ℕ → ℕ → CallWorld × ℕ
  pub notinservice : CallWorld → ℕ → ℕ → CallWorld

-- Fields of the call.
abbrev pub set_call : (Call → Call) → CallWorld → CallWorld
set_call f w = record w { call = f w.call }

abbrev pub flags : CallWorld → Flags
flags w = w.call.got_sent_msg

unfoldable pub flag : ℕ → CallWorld → CallWorld
flag k = set_call (λ c. record c { got_sent_msg = with_flag k c.got_sent_msg })

unfoldable pub unflag : List ℕ → CallWorld → CallWorld
unflag ks = set_call (λ c. record c { got_sent_msg = without ks c.got_sent_msg })

-- isup_start_timer, whose answer is not looked at.
unfoldable pub start : ℕ → CallWorld → CallWorld
unfolding isup_start_timer
start t w =
    let (sched, c, answer) = isup_start_timer w.sched w.now w.call t (w.delays t) tt (timer t) in
    record w { sched = sched; call = c }

-- isup_stop_timer
unfoldable pub stop : ℕ → CallWorld → CallWorld
unfolding stop_timer
stop t w =
    let id = get_or w.call.timer t minus_one in
    let (sched, id') = stop_timer w.sched id in
    if is_nonneg id
    then record w { sched = sched; call = record w.call { timer = set w.call.timer t id' } }
    else w

unfoldable pub stop_each : List ℕ → CallWorld → CallWorld
stop_each [] w = w
stop_each (t ∷ ts) w = stop_each ts (stop t w)

unfoldable pub stop_all : CallWorld → CallWorld
unfolding isup_stop_all_timers
stop_all w =
    let (sched, c) = isup_stop_all_timers w.sched w.call in record w { sched = sched; call = c }

-- isup_free_call: a call that is not in the list any more is left alone.
unfoldable pub free : CallWorld → CallWorld
free w = if w.live then record (stop_all w) { live = false } else w

-- A look at the call, which may be freed by now.
unfoldable pub touch : CallWorld → CallWorld
touch w = if w.live then w else record w { stale = w.stale + 1 }

-- isup_free_call_if_clear, and whether the call is still there.
unfoldable pub free_if_clear : CallWorld → CallWorld × Bool
free_if_clear w =
    if is_clear (flags w) && all_stopped w.call.timer then (free w, false) else (w, true)

unfoldable pub hand_over : Outside → CallWorld → Outgoing → CallWorld × ℤ
hand_over o w out = o.transmit (record w { sent = w.sent ++ (out ∷ []) }) out

abbrev pub sent_by : Outside → (Call → CallWorld) → CallWorld → Result Outgoing → CallWorld × ℤ
sent_by o after w overrun = (record w { overruns = w.overruns + 1 }, minus_one)
sent_by o after w refused = (w, minus_one)
sent_by o after w (ok out) = hand_over o (after out.call) out

-- isup_send_message; 528 is the size of struct ss7_msg.
unfoldable pub send : Outside → ℕ → List ℕ → CallWorld → CallWorld × ℤ
send o messagetype parms w =
    sent_by o (λ c. record w { call = c }) w
      (isup_send_message w.ss7 w.call messagetype parms (o.memory w) 528)

-- The same for a call that lasts as long as the function that sends.
unfoldable pub send_local : Outside → Call → ℕ → List ℕ → CallWorld → CallWorld × ℤ
send_local o c messagetype parms w =
    sent_by o (λ c'. w) w (isup_send_message w.ss7 c messagetype parms (o.memory w) 528)

-- What follows where a message could not be sent. The call is freed, and then its point code is
-- printed.
unfoldable pub lost : Outside → CallWorld → CallWorld
lost o w = let w' = free (o.call_null w 0) in record w' { stale = w'.stale + 1 }

-- `if (res > -1) k else …`, and `if (res == -1) …`
unfoldable pub if_sent : Outside → (CallWorld → CallWorld) → CallWorld × ℤ → CallWorld × ℤ
if_sent o k (w, answer) = (if is_nonneg answer then k w else lost o w, answer)

unfoldable pub unless_lost : Outside → CallWorld × ℤ → CallWorld × ℤ
unless_lost o (w, answer) = (if eq_ℤ answer minus_one then lost o w else w, answer)

abbrev pub if_posted :
    Outside → (CallWorld → CallWorld) → CallWorld → Option (Queue IsupEvent) → CallWorld × ℤ
if_posted o k w none = (free (o.call_null w 1), minus_one)
if_posted o k w (some q) = (k (record w { events = q }), pos 0)

-- An event with its fields, and then `k`; or the end of the call where the ring is full.
unfoldable pub event : Outside → IsupEvent → (CallWorld → CallWorld) → CallWorld → CallWorld × ℤ
event o e k w = if_posted o k w (post w.events e)

-- Where strncpy copies into an event, the array has 50 bytes; with no NUL, the text fills it.
abbrev pub event_text : List ℕ → List ℕ
event_text = take 50

abbrev pub event_number : Number → Number
event_number n = record n { num = event_text n.num }

-- The first `n` entries of an array, from another.
abbrev pub copy_status : ℕ → List ℕ → List ℕ → List ℕ
copy_status n from to = take n from ++ drop n to
