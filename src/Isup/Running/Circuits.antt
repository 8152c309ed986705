-- ===== src/Isup/Running/Circuits.antt =====
-- The timers of a call behind the messages for a circuit.
use libss.Base.{ℕ, refl, not, ◌&&◌, [], ◌∷◌, ◌==◌}
use libss.Isup.Messages.{empty_params}
use libss.Isup.Flags.{isup_sent_rsc, isup_got_ccr}
use libss.Isup.World.{Outside, flags, send}
use libss.Isup.Incoming.{isup_handle_unexpected}
use libss.Isup.CircuitHandlers.{
  on_rsc, forget_iam, after_cot, on_cot, on_ccr, on_cvt, on_blo, on_ubl, on_bla, on_uba, on_lpa,
  on_ucic,
}
use libss.Isup.Running.{
  IsGentle, Runs, Saves, running-IsSafe, if_Saves, if_Runs, flag-Runs, unflag-Runs, start-Runs,
  stop-Runs, stop_each-Runs, stop_all-Runs, send-IsRunning, event-IsSafe,
}
use libss.Isup.Running.Sending.{isup_handle_unexpected-Saves}
use libss.Isup.Running.Groups.{unchanged, expecting-Saves}

module _ (o : Outside) (g : IsGentle o) (cic opc : ℕ) where
  pub on_rsc-Saves : Saves (on_rsc o cic opc)
  unfolding on_rsc
  on_rsc-Saves w r =
      if_Saves (flags w isup_sent_rsc) (send o 0x10 empty_params w) _
        (running-IsSafe (send-IsRunning o g 0x10 empty_params w r))
        (event-IsSafe o g _ _
          (λ v q. let s = stop_all-Runs v q in record { owned = s.owned; alive = s.alive }) w r)

  forget_iam-Runs : Runs (forget_iam o cic opc)
  unfolding forget_iam
  forget_iam-Runs w r = if_Runs (w.call.cot.check_passed == 0) (unflag-Runs _ w r) r

  after_cot-Runs : Runs (after_cot o cic opc)
  unfolding after_cot
  after_cot-Runs w r =
      let s = stop-Runs 8 _ (unflag-Runs (isup_got_ccr ∷ []) _ (forget_iam-Runs w r)) in
      if_Runs (w.call.cot.check_passed == 0) (start-Runs 27 refl _ s) s

  pub on_cot-Saves : Saves (on_cot o cic opc)
  unfolding on_cot
  on_cot-Saves w r =
      if_Saves (not (flags w isup_got_ccr) && w.call.cot.performed_on_previous_cic == 0)
        (isup_handle_unexpected o opc w) _ (isup_handle_unexpected-Saves o g opc w r)
        (event-IsSafe o g _ _ after_cot-Runs w r)

  pub on_ccr-Saves : Saves (on_ccr o cic opc)
  unfolding on_ccr
  on_ccr-Saves w r = event-IsSafe o g _ _ (λ v q. stop-Runs 27 _ (flag-Runs _ v q)) w r

  pub on_cvt-Saves : Saves (on_cvt o cic opc)
  unfolding on_cvt
  on_cvt-Saves w r = event-IsSafe o g _ _ unchanged w r

  pub on_blo-Saves : Saves (on_blo o cic opc)
  unfolding on_blo
  on_blo-Saves w r = event-IsSafe o g _ _ unchanged w r

  pub on_ubl-Saves : Saves (on_ubl o cic opc)
  unfolding on_ubl
  on_ubl-Saves w r = event-IsSafe o g _ _ unchanged w r

  pub on_bla-Saves : Saves (on_bla o cic opc)
  unfolding on_bla
  on_bla-Saves =
      expecting-Saves o g cic opc _ _
        (λ w r. event-IsSafe o g _ _ (λ v q. unflag-Runs _ _ (stop_each-Runs _ v q)) w r)

  pub on_uba-Saves : Saves (on_uba o cic opc)
  unfolding on_uba
  on_uba-Saves =
      expecting-Saves o g cic opc _ _
        (λ w r. event-IsSafe o g _ _ (λ v q. unflag-Runs _ _ (stop_each-Runs _ v q)) w r)

  pub on_lpa-Saves : Saves (on_lpa o cic opc)
  unfolding on_lpa
  on_lpa-Saves w r = event-IsSafe o g _ _ unchanged w r

  pub on_ucic-Saves : Saves (on_ucic o cic opc)
  unfolding on_ucic
  on_ucic-Saves w r = event-IsSafe o g _ _ unchanged w r
