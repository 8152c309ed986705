-- ===== src/Isup/Incoming.antt =====
-- What isup_receive calls once the parameters of a message are in the call: `isup_event_iam` and
-- `isup_handle_unexpected`, with isup_clear_callflags.
pub mod Seizure
use libss.Base.{
  ℕ, ◌%◌, Bool, true, false, ◌&&◌, ◌||◌, not, List, [], ◌∷◌, ◌++◌, ◌==◌, if◌then◌else◌, ltb, take,
}
use libss.Base.Int.{ℤ, pos}
use libss.Isup.Call.{Name, Call, c_string, is_empty}
use libss.Isup.Flags.{
  isup_sent_cgb, isup_sent_cgu, isup_sent_rsc, isup_sent_rel, isup_sent_iam, isup_got_ccr,
  isup_got_iam, isup_pending_iam, isup_call_connected, has, mem,
}
use libss.Isup.World.{
  IamEvent, iam, CallWorld, Outside, set_call, flags, flag, unflag, start, stop_each, free, touch,
  free_if_clear, event, event_text, event_number,
}
use libss.Isup.Senders.{isup_inr, isup_rsc}

-- The constants SS7_CIC_NOT_EXISTS and SS7_CIC_IDLE, which ss7_hangup answers.
abbrev pub ss7_cic_not_exists : ℕ
ss7_cic_not_exists = 0

abbrev pub ss7_cic_idle : ℕ
ss7_cic_idle = 2

-- SS7_HANGUP_SEND_REL, SS7_HANGUP_SEND_RSC, SS7_HANGUP_REEVENT_IAM
abbrev pub hangup_send_rel : ℕ
hangup_send_rel = 1

abbrev pub hangup_send_rsc : ℕ
hangup_send_rsc = 2

abbrev pub hangup_reevent_iam : ℕ
hangup_reevent_iam = 5

-- SS7_CAUSE_TRY_AGAIN
abbrev pub cause_try_again : ℕ
cause_try_again = 256

abbrev is_configured : CallWorld → ℕ → Bool
is_configured w t = not (w.delays t == 0)

unfoldable pub ignores_unexpected : CallWorld → Bool
ignores_unexpected w =
    has isup_call_connected (flags w)
    || (has (isup_sent_rel ∷ isup_sent_rsc ∷ []) (flags w)
        && (is_configured w 1 && (is_configured w 5 && (is_configured w 16 && is_configured w 17))))

-- Whether the call has no number of the caller that it could have.
unfoldable pub lacks_calling : CallWorld → Bool
lacks_calling w =
    w.ss7.flags % 2 == 1
    && (is_empty w.call.calling.num && not (w.call.calling.presentation_ind == 2))

-- Whether this end keeps its own call where both have sent an IAM (`~cic & 1` or `cic & 1`).
unfoldable pub is_controlling : ℕ → ℕ → ℕ → Bool
is_controlling pc opc cic = if ltb opc pc then cic % 2 == 0 else cic % 2 == 1

abbrev event_name : Name → Name
event_name n = record n { text = event_text (c_string n.text) }

-- The numbers of the call, cut to the arrays of the event.
abbrev iam_event : Call → IamEvent
iam_event c = record {
  transcap = c.transcap;
  cot_check_required = c.cot.check_required;
  cot_performed_on_previous_cic = c.cot.performed_on_previous_cic;
  called_party_num = event_text c.called_party_num;
  called_nai = c.called_nai;
  calling = event_number c.calling;
  charge = record c.charge { number = event_text c.charge.number };
  oli_ani2 = c.oli_ani2;
  gen_add = record c.gen_add { number = event_text c.gen_add.number };
  gen_dig = record c.gen_dig { number = event_text c.gen_dig.number };
  jip_number = event_text c.jip_number;
  name = event_name c.name;
  lspi = record c.lspi { ident = event_text c.lspi.ident };
  orig_called = event_number c.orig_called;
  redirecting = event_number c.redirecting;
  redirect_counter = c.redirect_counter;
  redirection = c.redirection;
  calling_party_cat = c.calling_party_cat;
  cug = record c.cug { interlock_ni = take 5 c.cug.interlock_ni };
  echocontrol_ind = c.echocontrol_ind;
}

-- Until the number ends with '#', more digits may follow.
unfoldable pub await_digits : CallWorld → CallWorld
await_digits w = if mem 35 w.call.called_party_num then w else start 35 w

unfoldable pub await_check : CallWorld → CallWorld
await_check w =
    if w.call.cot.check_required == 0 && w.call.cot.performed_on_previous_cic == 0
    then w
    else start 8 w

unfoldable pub flag_check : CallWorld → CallWorld
flag_check w = if w.call.cot.check_required == 0 then w else flag isup_got_ccr w

abbrev pub no_check_passed : Call → Call
no_check_passed c = record c { cot = record c.cot { check_passed = 0 } }

unfoldable pub after_iam : CallWorld → CallWorld
unfolding flag_check await_digits await_check
after_iam w = await_check (await_digits (set_call no_check_passed (flag_check w)))

module _ (o : Outside) where
  unfoldable pub null_unless : CallWorld × Bool → CallWorld
  null_unless (w, true) = w
  null_unless (w, false) = o.call_null w 1

  -- What follows a message after which the call may be of no use.
  unfoldable pub drop_if_clear : CallWorld → CallWorld × ℤ
  unfolding null_unless
  drop_if_clear w = (null_unless (free_if_clear (touch w)), pos 0)

  unfoldable pub hung_up : CallWorld × ℕ → CallWorld
  hung_up (w, answer) =
      if answer == ss7_cic_idle
      then (isup_rsc o w).0
      else if answer == ss7_cic_not_exists
      then free w
      else w

  unfoldable pub isup_handle_unexpected : ℕ → CallWorld → CallWorld × ℤ
  isup_handle_unexpected opc w =
      if ignores_unexpected w
      then (w, pos 0)
      else (hung_up (o.hangup w w.call.cic opc 16 hangup_send_rsc), pos 0)

  -- The IAM of the other end, where this end has sent or is to send one of its own.
  unfoldable pub dual_seizure : ℕ → CallWorld → CallWorld
  dual_seizure opc w =
      if is_controlling w.ss7.pc opc w.call.cic
      then w
      else (o.hangup (flag isup_got_iam w) w.call.cic opc cause_try_again hangup_reevent_iam).0

  unfoldable pub offer_call : ℕ → CallWorld → CallWorld × ℤ
  unfolding after_iam flag_check
  offer_call opc w =
      let checked = flag_check w in
      event o (iam w.call.cic opc (flags checked) (iam_event w.call)) after_iam w

  -- A number is asked for where it is missing and the switch is to ask for it.
  unfoldable pub isup_event_iam : ℕ → CallWorld → CallWorld × ℤ
  unfolding lacks_calling
  isup_event_iam opc w =
      let got = flag isup_got_iam w in
      let asking = set_call (λ c. record c { dpc = opc }) got in
      if has (isup_sent_iam ∷ isup_pending_iam ∷ []) (flags w)
      then (dual_seizure opc w, pos 0)
      else if lacks_calling w
      then ((isup_inr o 1 0 asking).0, pos 0)
      else offer_call opc got

abbrev timers_of : ℕ → List ℕ → Bool → List ℕ
timers_of k ts true = ts
timers_of k ts false = []

unfoldable pub isup_clear_callflags : List ℕ → CallWorld → CallWorld
isup_clear_callflags ks w =
    let ts = timers_of isup_sent_iam (7 ∷ []) (mem isup_sent_iam ks) in
    let us = timers_of isup_sent_cgb (18 ∷ 19 ∷ []) (mem isup_sent_cgb ks) in
    let vs = timers_of isup_sent_cgu (20 ∷ 21 ∷ []) (mem isup_sent_cgu ks) in
    stop_each (ts ++ us ++ vs) (unflag ks w)
