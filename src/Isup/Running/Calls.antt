-- ===== src/Isup/Running/Calls.antt =====
-- The timers of a call behind the messages for a call.
use libss.Base.{ℕ, ◌≡◌, refl, true, ◌||◌, [], ◌∷◌, arith, ltb}
use libss.Base.Int.{pos}
use libss.Isup.Flags.{isup_sent_rsc, isup_sent_rel, isup_sent_inr}
use libss.Isup.World.{CallWorld, Outside, flags, unflag, stop}
use libss.Isup.Senders.{isup_rel}
use libss.Isup.Incoming.{lacks_calling, drop_if_clear, isup_event_iam}
use libss.Isup.GroupHandlers.{expecting}
use libss.Isup.CallHandlers.{
  on_sam, got_inf, on_inf, got_inr, on_inr, on_rel, after_got_rel, got_acm, on_acm, got_con, on_con,
  got_anm, on_anm, after_rlc, on_rlc, on_cpg, on_frj, on_faa, on_far, got_sus, on_sus, got_res,
  on_res, unsolicited, suspend_timer,
}
use libss.Isup.Running.{
  IsGentle, Runs, Saves, running-IsSafe, if_Saves, flag-Runs, unflag-Runs, start-Runs, stop-Runs,
  stop_each-Runs, event-IsSafe,
}
use libss.Isup.Running.Sending.{
  isup_rel-Saves, isup_inf-Saves, drop_if_clear-IsSafe, isup_event_iam-Saves,
}
use libss.Isup.Running.Groups.{unchanged, expecting-Saves}

module _ (o : Outside) (g : IsGentle o) (cic opc : ℕ) where
  pub on_sam-Saves : Saves (on_sam o cic opc)
  unfolding on_sam
  on_sam-Saves =
      expecting-Saves o g cic opc _ _ (λ w r. event-IsSafe o g _ _ (start-Runs 35 refl) w r)

  got_inf-Saves : Saves (got_inf o cic opc)
  unfolding got_inf
  got_inf-Saves w r =
      let given = unflag (isup_sent_inr ∷ []) (stop 33 w) in
      if_Saves (lacks_calling w) ((isup_rel o (pos 16) w).0, pos 0) _
        (isup_rel-Saves o g (pos 16) w r)
        (if_Saves (unsolicited w) (drop_if_clear o w) (isup_event_iam o opc given)
          (drop_if_clear-IsSafe o g w (running-IsSafe r))
          (isup_event_iam-Saves o g opc given (unflag-Runs _ _ (stop-Runs 33 w r))))

  pub on_inf-Saves : Saves (on_inf o cic opc)
  unfolding on_inf
  on_inf-Saves w r =
      if_Saves (unsolicited w) (got_inf o cic opc w)
        (expecting o cic opc (isup_sent_inr ∷ []) (got_inf o cic opc) w) (got_inf-Saves w r)
        (expecting-Saves o g cic opc _ _ got_inf-Saves w r)

  got_inr-Saves : Saves (got_inr o cic opc)
  unfolding got_inr
  got_inr-Saves w r = drop_if_clear-IsSafe o g _ (isup_inf-Saves o g _ 0 w r)

  pub on_inr-Saves : Saves (on_inr o cic opc)
  unfolding on_inr
  on_inr-Saves = expecting-Saves o g cic opc _ _ got_inr-Saves

  after_got_rel-Runs : Runs (after_got_rel o cic opc)
  unfolding after_got_rel
  after_got_rel-Runs w r = unflag-Runs _ _ (stop_each-Runs _ w r)

  pub on_rel-Saves : Saves (on_rel o cic opc)
  unfolding on_rel
  on_rel-Saves w r = event-IsSafe o g _ _ after_got_rel-Runs w r

  pub on_acm-Saves : Saves (on_acm o cic opc)
  unfolding on_acm got_acm
  on_acm-Saves =
      expecting-Saves o g cic opc _ _
        (λ w r. event-IsSafe o g _ _ (λ v q. flag-Runs _ _ (stop-Runs 7 v q)) w r)

  pub on_con-Saves : Saves (on_con o cic opc)
  unfolding on_con got_con
  on_con-Saves =
      expecting-Saves o g cic opc _ _
        (λ w r. event-IsSafe o g _ _ (λ v q. flag-Runs _ _ (stop-Runs 7 v q)) w r)

  pub on_anm-Saves : Saves (on_anm o cic opc)
  unfolding on_anm got_anm
  on_anm-Saves = expecting-Saves o g cic opc _ _ (λ w r. event-IsSafe o g _ _ (flag-Runs _) w r)

  after_rlc-Runs : Runs (after_rlc o cic opc)
  unfolding after_rlc
  after_rlc-Runs w r = stop_each-Runs _ _ (unflag-Runs _ w r)

  pub on_rlc-Saves : Saves (on_rlc o cic opc)
  unfolding on_rlc
  on_rlc-Saves = expecting-Saves o g cic opc _ _ (λ w r. event-IsSafe o g _ _ after_rlc-Runs w r)

  pub on_cpg-Saves : Saves (on_cpg o cic opc)
  unfolding on_cpg
  on_cpg-Saves = expecting-Saves o g cic opc _ _ (λ w r. event-IsSafe o g _ _ unchanged w r)

  pub on_frj-Saves : Saves (on_frj o cic opc)
  unfolding on_frj
  on_frj-Saves w r = event-IsSafe o g _ _ unchanged w r

  pub on_faa-Saves : Saves (on_faa o cic opc)
  unfolding on_faa
  on_faa-Saves w r = event-IsSafe o g _ _ unchanged w r

  pub on_far-Saves : Saves (on_far o cic opc)
  unfolding on_far
  on_far-Saves w r = event-IsSafe o g _ _ unchanged w r

  pub on_sus-Saves : Saves (on_sus o cic opc)
  unfolding on_sus got_sus
  on_sus-Saves w r =
      if_Saves (flags w isup_sent_rsc || flags w isup_sent_rel) (w, pos 0) _ (running-IsSafe r)
        (expecting-Saves o g cic opc _ _ (λ v q. event-IsSafe o g _ _ (start-Runs _ (short v)) v q)
          w r)
    where
      short : (v : CallWorld) → ltb (suspend_timer o cic opc v) 64 ≡ true
      short v = ground arith

  pub on_res-Saves : Saves (on_res o cic opc)
  unfolding on_res got_res
  on_res-Saves = expecting-Saves o g cic opc _ _ (λ w r. event-IsSafe o g _ _ (stop-Runs _) w r)
