-- ===== src/Isup/Running/Sending.antt =====
-- The timers of a call behind the functions of isup.c that the switch and the expiry of a timer call.
use libss.Base.{ℕ, ◌≡◌, refl, Bool, true, false, List, [], ◌∷◌, ◌==◌, ==_iff}
use libss.Base.Int.{ℤ}
use libss.Isup.Messages.{inf_params, rel_params, inr_params, empty_params}
use libss.Isup.Flags.{isup_sent_iam, isup_got_iam, isup_pending_iam, has, mem, isup_got_ccr}
use libss.Isup.World.{CallWorld, Outside, set_call, flags, flag}
use libss.Isup.Senders.{isup_inf, isup_rel, isup_inr, isup_rsc, plain, after_rel}
use libss.Isup.Incoming.{
  ss7_cic_idle, hangup_send_rsc, hangup_reevent_iam, cause_try_again, ignores_unexpected,
  lacks_calling, is_controlling, after_iam, drop_if_clear, null_unless, hung_up,
  isup_handle_unexpected, dual_seizure, offer_call, isup_event_iam, flag_check, await_digits,
  await_check, no_check_passed, isup_clear_callflags,
}
use libss.Isup.Running.{
  IsSafe, IsGentle, Runs, Saves, running-IsSafe, if_IsSafe, if_Saves, if_Runs, flag-Runs,
  unflag-Runs, start-Runs, stop_each-Runs, stop_all-Runs, free-IsSafe, touch-IsSafe,
  free_if_clear-IsSafe, send-IsRunning, if_sent-IsSafe, unless_lost-IsSafe, event-IsSafe,
}

module _ (o : Outside) (g : IsGentle o) where
  pub isup_rsc-Saves : Saves (isup_rsc o)
  unfolding isup_rsc
  isup_rsc-Saves w r =
      if_sent-IsSafe o g _ _ (λ v q. flag-Runs _ _ (start-Runs 17 refl _ (stop_all-Runs v q)))
        (send-IsRunning o g 0x12 empty_params w r)

  pub isup_inr-Saves : (a b : ℕ) → Saves (isup_inr o a b)
  unfolding isup_inr
  isup_inr-Saves a b w r =
      if_sent-IsSafe o g _ _ (λ v q. start-Runs 33 refl _ (flag-Runs _ v q))
        (send-IsRunning o g 0x03 inr_params _ (record { owned = r.owned; alive = r.alive }))

  pub isup_inf-Saves : (a b : ℕ) → Saves (isup_inf o a b)
  unfolding isup_inf plain
  isup_inf-Saves a b w r =
      unless_lost-IsSafe o g _
        (send-IsRunning o g 0x04 inf_params _ (record { owned = r.owned; alive = r.alive }))

  pub isup_rel-Saves : (cause : ℤ) → Saves (isup_rel o cause)
  unfolding isup_rel after_rel
  isup_rel-Saves cause w r =
      if_sent-IsSafe o g _ _
        (λ v q.
          unflag-Runs _ _
            (flag-Runs _ _ (start-Runs 5 refl _ (start-Runs 1 refl _ (stop_each-Runs _ v q)))))
        (send-IsRunning o g 0x0c rel_params _ (record { owned = r.owned; alive = r.alive }))

  null_unless-IsSafe : (x : CallWorld × Bool) → IsSafe (x.0) → IsSafe (null_unless o x)
  unfolding null_unless
  null_unless-IsSafe (w, true) s = s
  null_unless-IsSafe (w, false) s = g.call_null w 1 s

  pub drop_if_clear-IsSafe : (w : CallWorld) → IsSafe w → IsSafe (drop_if_clear o w).0
  unfolding drop_if_clear
  drop_if_clear-IsSafe w s = null_unless-IsSafe _ (free_if_clear-IsSafe _ (touch-IsSafe w s))

  hung_up-IsSafe :
      (x : CallWorld × ℕ) → IsSafe (x.0) → (x.1 ≡ 2 → x.0.live ≡ true) → IsSafe (hung_up o x)
  unfolding hung_up
  hung_up-IsSafe (w, answer) s idle =
      if_IsSafe (answer == ss7_cic_idle)
        (λ e. isup_rsc-Saves w (record { owned = s.owned; alive = idle ((==_iff answer 2).0 e) }))
        (λ e. if_IsSafe (answer == 0) (λ e. free-IsSafe w s) (λ e. s))

  pub isup_handle_unexpected-Saves : (opc : ℕ) → Saves (isup_handle_unexpected o opc)
  unfolding isup_handle_unexpected
  isup_handle_unexpected-Saves opc w r = if_Saves (ignores_unexpected w) _ _ (running-IsSafe r) (
      hung_up-IsSafe _ (g.hangup w w.call.cic opc 16 hangup_send_rsc r)
        (g.hangup_idle w w.call.cic opc 16 hangup_send_rsc r))

  flag_check-Runs : Runs flag_check
  unfolding flag_check
  flag_check-Runs w r = if_Runs (w.call.cot.check_required == 0) r (flag-Runs isup_got_ccr w r)

  await_digits-Runs : Runs await_digits
  unfolding await_digits
  await_digits-Runs w r = if_Runs (mem 35 w.call.called_party_num) r (start-Runs 35 refl w r)

  await_check-Runs : Runs await_check
  unfolding await_check
  await_check-Runs w r = if_Runs _ r (start-Runs 8 refl w r)

  after_iam-Runs : Runs after_iam
  unfolding after_iam
  after_iam-Runs w r =
      let f = flag_check-Runs w r in
      let v = set_call no_check_passed (flag_check w) in
      await_check-Runs (await_digits v)
        (await_digits-Runs v (record { owned = f.owned; alive = f.alive }))

  pub isup_event_iam-Saves : (opc : ℕ) → Saves (isup_event_iam o opc)
  unfolding isup_event_iam dual_seizure offer_call
  isup_event_iam-Saves opc w r =
      let got = flag-Runs isup_got_iam w r in
      let asking = set_call (λ c. record c { dpc = opc }) (flag isup_got_iam w) in
      if_Saves (has (isup_sent_iam ∷ isup_pending_iam ∷ []) (flags w)) _ _
        (if_IsSafe (is_controlling w.ss7.pc opc w.call.cic) (λ e. running-IsSafe r)
          (λ e. g.hangup _ w.call.cic opc cause_try_again hangup_reevent_iam got))
        (if_Saves (lacks_calling w) _ _
          (isup_inr-Saves 1 0 asking (record { owned = got.owned; alive = got.alive }))
          (event-IsSafe o g _ after_iam after_iam-Runs _ got))

  pub isup_clear_callflags-Runs : (ks : List ℕ) → Runs (isup_clear_callflags ks)
  unfolding isup_clear_callflags
  isup_clear_callflags-Runs ks w r = stop_each-Runs _ _ (unflag-Runs ks w r)
