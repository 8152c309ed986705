-- ===== src/Isup/CallHandlers.antt =====
-- The messages for a call in the switch of isup_receive. `cic` is the circuit that the message names
-- and `opc` the point code that it comes from.
use libss.Base.{ℕ, ◌/◌, ◌%◌, Bool, ◌||◌, List, [], ◌∷◌, ◌++◌, ◌==◌, if◌then◌else◌}
use libss.Base.Int.{ℤ, pos}
use libss.Isup.Call.{is_empty}
use libss.Isup.Flags.{
  isup_sent_rsc, isup_sent_rel, isup_sent_iam, isup_got_iam, isup_got_acm, isup_got_con,
  isup_got_anm, isup_sent_inr, isup_call_connected, isup_call_pending,
}
use libss.Isup.World.{
  IsupEvent, sam, rlc, rel, acm, con, anm, cpg, frj, faa, far, sus, res, CallWorld, Outside, flags,
  flag, unflag, start, stop, stop_each, event, event_text, event_number,
}
use libss.Isup.Senders.{isup_inf, isup_rel}
use libss.Isup.Incoming.{lacks_calling, drop_if_clear, isup_event_iam}
use libss.Isup.GroupHandlers.{expecting}

-- `inf_ind[0] & 0x80`
abbrev pub unsolicited : CallWorld → Bool
unsolicited w = w.call.inf_ind.0 / 128 % 2 == 1

-- Every flag of a call that is being set up or is connected.
abbrev pub call_flags : List ℕ
call_flags = isup_call_connected ++ isup_call_pending

module _ (o : Outside) (cic opc : ℕ) where
  sam_event : CallWorld → IsupEvent
  sam_event w =
      let c = w.call in sam c.cic opc (event_text c.called_party_num) c.called_nai (flags w) c.cot

  unfoldable pub on_sam : CallWorld → CallWorld × ℤ
  unfolding sam_event
  on_sam = expecting o cic opc (isup_got_iam ∷ []) (λ w. event o (sam_event w) (start 35) w)

  unfoldable pub got_inf : CallWorld → CallWorld × ℤ
  got_inf w =
      if lacks_calling w
      then ((isup_rel o (pos 16) w).0, pos 0)
      else if unsolicited w
      then drop_if_clear o w
      else isup_event_iam o opc (unflag (isup_sent_inr ∷ []) (stop 33 w))

  unfoldable pub on_inf : CallWorld → CallWorld × ℤ
  unfolding got_inf
  on_inf w = if unsolicited w then got_inf w else expecting o cic opc (isup_sent_inr ∷ []) got_inf w

  unfoldable pub got_inr : CallWorld → CallWorld × ℤ
  got_inr w =
      let ind = if is_empty w.call.calling.num then 0x21 else 0x23 in
      drop_if_clear o ((isup_inf o ind 0 w).0)

  unfoldable pub on_inr : CallWorld → CallWorld × ℤ
  unfolding got_inr
  on_inr = expecting o cic opc (isup_sent_iam ∷ []) got_inr

  unfoldable pub after_got_rel : CallWorld → CallWorld
  after_got_rel w = unflag call_flags (stop_each (7 ∷ 2 ∷ 6 ∷ 35 ∷ 10 ∷ []) w)

  unfoldable pub on_rel : CallWorld → CallWorld × ℤ
  unfolding after_got_rel
  on_rel w =
      event o (rel w.call.cic opc w.call.cause.cause (flags (unflag call_flags w))) after_got_rel w

  unfoldable pub got_acm : CallWorld → CallWorld × ℤ
  got_acm w =
      let c = w.call in
      let got = flag isup_got_acm w in
      event o (acm c.cic opc c.call_ref c.called_party_status_ind c.echocontrol_ind (flags got))
        (λ w. flag isup_got_acm (stop 7 w)) w

  unfoldable pub on_acm : CallWorld → CallWorld × ℤ
  unfolding got_acm
  on_acm = expecting o cic opc (isup_sent_iam ∷ []) got_acm

  unfoldable pub got_con : CallWorld → CallWorld × ℤ
  got_con w =
      let c = w.call in
      let got = flag isup_got_con w in
      event o (con c.cic opc (event_number c.connected) c.echocontrol_ind (flags got))
        (λ w. flag isup_got_con (stop 7 w)) w

  unfoldable pub on_con : CallWorld → CallWorld × ℤ
  unfolding got_con
  on_con = expecting o cic opc (isup_sent_iam ∷ []) got_con

  unfoldable pub got_anm : CallWorld → CallWorld × ℤ
  got_anm w =
      let c = w.call in
      let got = flag isup_got_anm w in
      event o (anm c.cic opc (event_number c.connected) c.echocontrol_ind (flags got))
        (flag isup_got_anm) w

  unfoldable pub on_anm : CallWorld → CallWorld × ℤ
  unfolding got_anm
  on_anm = expecting o cic opc (isup_sent_iam ∷ []) got_anm

  unfoldable pub after_rlc : CallWorld → CallWorld
  after_rlc w =
      let calls = if flags w isup_sent_rsc then call_flags else [] in
      stop_each (1 ∷ 2 ∷ 5 ∷ 6 ∷ 16 ∷ 17 ∷ []) (unflag (isup_sent_rel ∷ isup_sent_rsc ∷ calls) w)

  unfoldable pub on_rlc : CallWorld → CallWorld × ℤ
  unfolding after_rlc
  on_rlc =
      expecting o cic opc (isup_sent_rel ∷ isup_sent_rsc ∷ [])
        (λ w. event o (rlc w.call.cic opc (flags w)) after_rlc w)

  cpg_event : CallWorld → IsupEvent
  cpg_event w =
      let c = w.call in
      cpg c.cic opc c.event_info (flags w) c.echocontrol_ind (event_number c.connected)

  unfoldable pub on_cpg : CallWorld → CallWorld × ℤ
  unfolding cpg_event
  on_cpg = expecting o cic opc (isup_sent_iam ∷ []) (λ w. event o (cpg_event w) (λ w. w) w)

  unfoldable pub on_frj : CallWorld → CallWorld × ℤ
  on_frj w = event o (frj w.call.cic opc w.call.call_ref) (λ w. w) w

  unfoldable pub on_faa : CallWorld → CallWorld × ℤ
  on_faa w = event o (faa w.call.cic opc w.call.call_ref) (λ w. w) w

  unfoldable pub on_far : CallWorld → CallWorld × ℤ
  on_far w = event o (far w.call.cic opc w.call.call_ref) (λ w. w) w

  -- T6 is for a suspension by the network, and T2 for one by the user.
  abbrev pub suspend_timer : CallWorld → ℕ
  suspend_timer w = if w.call.network_isdn_indicator == 0 then 2 else 6

  unfoldable pub got_sus : CallWorld → CallWorld × ℤ
  got_sus w =
      event o (sus w.call.cic opc w.call.network_isdn_indicator (flags w)) (start (suspend_timer w))
        w

  unfoldable pub on_sus : CallWorld → CallWorld × ℤ
  unfolding got_sus
  on_sus w =
      if flags w isup_sent_rsc || flags w isup_sent_rel
      then (w, pos 0)
      else expecting o cic opc (isup_got_iam ∷ isup_sent_iam ∷ []) got_sus w

  unfoldable pub got_res : CallWorld → CallWorld × ℤ
  got_res w =
      event o (res w.call.cic opc w.call.network_isdn_indicator (flags w)) (stop (suspend_timer w))
        w

  unfoldable pub on_res : CallWorld → CallWorld × ℤ
  unfolding got_res
  on_res = expecting o cic opc (isup_got_iam ∷ isup_sent_iam ∷ []) got_res
