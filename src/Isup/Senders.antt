-- ===== src/Isup/Senders.antt =====
-- The functions that send a message for a call, `isup_iam` to `isup_uba`, or for a circuit that has
-- none.
use libss.Base.{ℕ, Option, none, some, List, [], ◌∷◌, ◌++◌, ◌==◌, if◌then◌else◌}
use libss.Base.Int.{ℤ, pos, negsuc, minus_one}
use libss.Mtp2.Transmit.{itu}
use libss.Isup.Call.{CallRef}
use libss.Isup.Calls.{zeroed}
use libss.Isup.Messages.{
  iam_params, ansi_iam_params, acm_params, frj_params, faa_params, far_params, anm_params,
  con_params, rel_params, cpg_params, sus_res_params, inr_params, inf_params, empty_params,
}
use libss.Isup.Flags.{
  isup_sent_rsc, isup_sent_rel, isup_sent_blo, isup_sent_ubl, isup_sent_iam, isup_sent_far,
  isup_sent_acm, isup_sent_con, isup_sent_anm, isup_sent_inr, isup_pending_iam, isup_call_connected,
  isup_call_pending,
}
use libss.Isup.World.{
  CallWorld, Outside, set_call, flag, unflag, start, stop_each, stop_all, send, send_local, if_sent,
  unless_lost,
}

module _ (o : Outside) where
  unfoldable pub isup_iam : CallWorld → CallWorld × ℤ
  isup_iam w =
      let parms = if w.ss7.switchtype == itu then iam_params else ansi_iam_params in
      if_sent o (λ w. unflag (isup_pending_iam ∷ []) (flag isup_sent_iam (start 7 w)))
        (send o 0x01 parms w)

  -- The timers that an answer to the IAM ends.
  unfoldable pub answered : CallWorld → CallWorld
  answered = stop_each (35 ∷ 10 ∷ [])

  unfoldable pub isup_acm : CallWorld → CallWorld × ℤ
  unfolding answered
  isup_acm w = if_sent o (λ w. answered (flag isup_sent_acm w)) (send o 0x06 acm_params w)

  unfoldable pub isup_anm : CallWorld → CallWorld × ℤ
  unfolding answered
  isup_anm w = if_sent o (λ w. answered (flag isup_sent_anm w)) (send o 0x09 anm_params w)

  unfoldable pub isup_con : CallWorld → CallWorld × ℤ
  unfolding answered
  isup_con w = if_sent o (λ w. w) (send o 0x07 con_params (answered (flag isup_sent_con w)))

  unfoldable pub isup_cpg : ℕ → CallWorld → CallWorld × ℤ
  unfolding answered
  isup_cpg event w =
      if_sent o answered
        (send o 0x2c cpg_params (set_call (λ c. record c { event_info = event }) w))

  -- A message of which only a failure is looked at.
  unfoldable pub plain : ℕ → List ℕ → CallWorld → CallWorld × ℤ
  plain messagetype parms w = unless_lost o (send o messagetype parms w)

  unfoldable pub isup_frj : CallWorld → CallWorld × ℤ
  unfolding plain
  isup_frj = plain 0x21 frj_params

  unfoldable pub isup_faa : CallWorld → CallWorld × ℤ
  unfolding plain
  isup_faa = plain 0x20 faa_params

  unfoldable pub isup_rlc : CallWorld → CallWorld × ℤ
  unfolding plain
  isup_rlc = plain 0x10 empty_params

  unfoldable pub isup_bla : CallWorld → CallWorld × ℤ
  unfolding plain
  isup_bla = plain 0x15 empty_params

  unfoldable pub isup_uba : CallWorld → CallWorld × ℤ
  unfolding plain
  isup_uba = plain 0x16 empty_params

  unfoldable pub isup_inf : ℕ → ℕ → CallWorld → CallWorld × ℤ
  unfolding plain
  isup_inf ind0 ind1 w =
      plain 0x04 inf_params (set_call (λ c. record c { inf_ind = (ind0, ind1) }) w)

  abbrev with_indicator : ℕ → CallWorld → CallWorld
  with_indicator indicator = set_call (λ c. record c { network_isdn_indicator = indicator })

  unfoldable pub isup_sus : ℕ → CallWorld → CallWorld × ℤ
  unfolding plain
  isup_sus indicator w = plain 0x0d sus_res_params (with_indicator indicator w)

  unfoldable pub isup_res : ℕ → CallWorld → CallWorld × ℤ
  unfolding plain
  isup_res indicator w = plain 0x0e sus_res_params (with_indicator indicator w)

  -- `next` is the reference of the call behind this one in the list, where there is one.
  unfoldable pub isup_far : Option CallRef → CallWorld → CallWorld × ℤ
  isup_far none w = (w, minus_one)
  isup_far (some ref) w =
      if ref.ident == 0
      then (w, minus_one)
      else if_sent o (flag isup_sent_far)
          (send o 0x1f far_params (set_call (λ c. record c { call_ref = ref }) w))

  abbrev cause_or_16 : ℤ → ℕ
  cause_or_16 (pos cause) = cause
  cause_or_16 (negsuc n) = 16

  abbrev with_cause : ℤ → CallWorld → CallWorld
  with_cause cause w =
      set_call
        (λ c. record c {
          cause = record { cause = cause_or_16 cause; code = 0; loc = w.ss7.cause_location };
        })
        w

  unfoldable pub after_rel : CallWorld → CallWorld
  after_rel w =
      let w' = stop_each (7 ∷ 8 ∷ 27 ∷ 2 ∷ 6 ∷ 35 ∷ 10 ∷ []) w in
      unflag (isup_call_pending ++ isup_call_connected) (flag isup_sent_rel (start 5 (start 1 w')))

  unfoldable pub isup_rel : ℤ → CallWorld → CallWorld × ℤ
  unfolding after_rel
  isup_rel cause w = if_sent o after_rel (send o 0x0c rel_params (with_cause cause w))

  unfoldable pub isup_inr : ℕ → ℕ → CallWorld → CallWorld × ℤ
  isup_inr ind0 ind1 w =
      if_sent o (λ w. start 33 (flag isup_sent_inr w))
        (send o 0x03 inr_params (set_call (λ c. record c { inr_ind = (ind0, ind1) }) w))

  unfoldable pub isup_rsc : CallWorld → CallWorld × ℤ
  isup_rsc w =
      if_sent o (λ w. flag isup_sent_rsc (start 17 (stop_all w))) (send o 0x12 empty_params w)

  unfoldable pub isup_blo : CallWorld → CallWorld × ℤ
  isup_blo w =
      if_sent o (λ w. flag isup_sent_blo (start 13 (start 12 w))) (send o 0x13 empty_params w)

  unfoldable pub isup_ubl : CallWorld → CallWorld × ℤ
  isup_ubl w =
      if_sent o (λ w. flag isup_sent_ubl (start 15 (start 14 w))) (send o 0x14 empty_params w)

  unfoldable pub isup_send_message_ciconly : ℕ → ℕ → ℕ → CallWorld → CallWorld × ℤ
  isup_send_message_ciconly messagetype cic dpc =
      send_local o (record zeroed { cic = cic; dpc = dpc }) messagetype empty_params

  unfoldable pub isup_lpa : ℕ → ℕ → CallWorld → CallWorld × ℤ
  isup_lpa = isup_send_message_ciconly 0x24

  unfoldable pub isup_ucic : ℕ → ℕ → CallWorld → CallWorld × ℤ
  isup_ucic = isup_send_message_ciconly 0x2e

  unfoldable pub isup_cvr : ℕ → ℕ → CallWorld → CallWorld × ℤ
  isup_cvr = isup_send_message_ciconly 0xeb
