-- ===== src/Isup/CircuitHandlers.antt =====
-- The messages for a circuit in the switch of isup_receive. `cic` is the circuit that the message
-- names and `opc` the point code that it comes from.
use libss.Base.{ℕ, false, ◌&&◌, not, [], ◌∷◌, ◌==◌, if◌then◌else◌}
use libss.Base.Int.{ℤ}
use libss.Isup.Messages.{empty_params}
use libss.Isup.Flags.{isup_sent_rsc, isup_sent_blo, isup_sent_ubl, isup_got_ccr, isup_got_iam}
use libss.Isup.World.{
  rsc, blo, bla, uba, ccr, ubl, lpa, ucic, cvt, cot, CallWorld, Outside, set_call, flags, flag,
  unflag, start, stop, stop_each, stop_all, send, event,
}
use libss.Isup.Incoming.{isup_handle_unexpected}
use libss.Isup.GroupHandlers.{expecting}

abbrev pub no_flags : CallWorld → CallWorld
no_flags = set_call (λ c. record c { got_sent_msg = λ k. false })

module _ (o : Outside) (cic opc : ℕ) where
  -- Where both ends reset the circuit, the other end's reset is answered at once.
  unfoldable pub on_rsc : CallWorld → CallWorld × ℤ
  on_rsc w =
      if flags w isup_sent_rsc
      then send o 0x10 empty_params w
      else event o (rsc cic opc (flags w)) (λ w. no_flags (stop_all w)) w

  -- Where the check has failed, another IAM will come.
  unfoldable pub forget_iam : CallWorld → CallWorld
  forget_iam w = if w.call.cot.check_passed == 0 then unflag (isup_got_iam ∷ []) w else w

  unfoldable pub after_cot : CallWorld → CallWorld
  unfolding forget_iam
  after_cot w =
      let w' = stop 8 (unflag (isup_got_ccr ∷ []) (forget_iam w)) in
      if w.call.cot.check_passed == 0 then start 27 w' else w'

  unfoldable pub on_cot : CallWorld → CallWorld × ℤ
  unfolding forget_iam after_cot
  on_cot w =
      let t = w.call.cot in
      if not (flags w isup_got_ccr) && t.performed_on_previous_cic == 0
      then isup_handle_unexpected o opc w
      else event o
          (cot w.call.cic opc t.check_passed t.performed_on_previous_cic (flags (forget_iam w)))
          after_cot w

  unfoldable pub on_ccr : CallWorld → CallWorld × ℤ
  on_ccr w =
      event o (ccr w.call.cic opc (flags (flag isup_got_ccr w)))
        (λ w. stop 27 (flag isup_got_ccr w)) w

  unfoldable pub on_cvt : CallWorld → CallWorld × ℤ
  on_cvt w = event o (cvt w.call.cic) (λ w. w) w

  unfoldable pub on_blo : CallWorld → CallWorld × ℤ
  on_blo w = event o (blo w.call.cic opc (flags w)) (λ w. w) w

  unfoldable pub on_ubl : CallWorld → CallWorld × ℤ
  on_ubl w = event o (ubl w.call.cic opc) (λ w. w) w

  unfoldable pub on_bla : CallWorld → CallWorld × ℤ
  on_bla = expecting o cic opc (isup_sent_blo ∷ []) (λ w.
      event o (bla w.call.cic opc (flags w))
        (λ w. unflag (isup_sent_blo ∷ []) (stop_each (12 ∷ 13 ∷ []) w)) w)

  unfoldable pub on_uba : CallWorld → CallWorld × ℤ
  on_uba = expecting o cic opc (isup_sent_ubl ∷ []) (λ w.
      event o (uba w.call.cic opc (flags w))
        (λ w. unflag (isup_sent_ubl ∷ []) (stop_each (14 ∷ 15 ∷ []) w)) w)

  unfoldable pub on_lpa : CallWorld → CallWorld × ℤ
  on_lpa w = event o (lpa w.call.cic opc) (λ w. w) w

  unfoldable pub on_ucic : CallWorld → CallWorld × ℤ
  on_ucic w = event o (ucic w.call.cic opc) (λ w. w) w
