-- ===== src/Isup/Running/Requesting.antt =====
-- The timers of a call behind the requests of the application.
use libss.Base.{ℕ, ◌≡◌, refl, Bool, true, false, Option, none, some, List, ◌==◌, if◌then◌else◌}
use libss.Base.Int.{ℤ, minus_one}
use libss.Mtp2.Transmit.{ansi}
use libss.Isup.Call.{Call, CallRef}
use libss.Isup.Messages.{
  acm_params, far_params, anm_params, con_params, greset_params, cpg_params, cicgroup_params,
  sus_res_params, empty_params,
}
use libss.Isup.Flags.{isup_sent_grs, isup_sent_grs2, isup_sent_con}
use libss.Isup.World.{CallWorld, Outside, set_call, start, send, if_sent, unless_lost}
use libss.Isup.GroupSenders.{
  too_far, with_range, for_group, keep_cgb, keep_cgu, keep_grs, after_grs, answer_group, isup_grs,
  isup_gra, isup_cgb, isup_cgu, isup_cgba, isup_cgua,
}
use libss.Isup.Senders.{
  plain, answered, isup_iam, isup_acm, isup_anm, isup_con, isup_cpg, isup_frj, isup_faa, isup_rlc,
  isup_bla, isup_uba, isup_sus, isup_res, isup_far, isup_blo, isup_ubl,
}
use libss.Isup.Requests.{
  Request, ask_grs, ask_gra, ask_cgba, ask_cgua, ask_cgb, ask_cgu, ask_iam, ask_acm, ask_anm,
  ask_con, ask_frj, ask_faa, ask_rlc, ask_bla, ask_uba, ask_rsc, ask_blo, ask_ubl, ask_cpg, ask_sus,
  ask_res, ask_inf, ask_inr, ask_far, ask_rel, ask_digittimeout, ask_free_call, ask_free_if_clear,
  ask_clear_callflags, ask_event_iam, isup_start_digittimeout, perform,
}
use libss.Isup.Running.{
  IsRunning, IsGentle, Runs, Saves, running-IsSafe, if_Saves, if_Runs, flag-Runs, unflag-Runs,
  start-Runs, stop_each-Runs, stop_all-Runs, send-IsRunning, if_sent-IsSafe, unless_lost-IsSafe,
  free-IsSafe, free_if_clear-IsSafe,
}
use libss.Isup.Running.Sending.{
  isup_rsc-Saves, isup_inr-Saves, isup_inf-Saves, isup_rel-Saves, isup_event_iam-Saves,
  isup_clear_callflags-Runs,
}

-- A change of the call that leaves its timers alone.
set_call-Runs : (f : Call → Call) → ((c : Call) → (f c).timer ≡ c.timer) → Runs (set_call f)
set_call-Runs f h w r = record { owned = rw (h w.call) (r.owned); alive = r.alive }

answered-Runs : (o : Outside) → Runs (answered o)
unfolding answered
answered-Runs o = stop_each-Runs _

module _ (o : Outside) (g : IsGentle o) where
  plain-Saves : (message : ℕ) (parms : List ℕ) → Saves (plain o message parms)
  unfolding plain
  plain-Saves message parms w r = unless_lost-IsSafe o g _ (send-IsRunning o g message parms w r)

  after_grs-Runs : (endcic : ℕ) → Runs (after_grs o endcic)
  unfolding after_grs
  after_grs-Runs endcic w r =
      let s =
        if_Runs (w.ss7.switchtype == ansi)
          (flag-Runs isup_sent_grs2 _ (flag-Runs isup_sent_grs w r))
          (flag-Runs isup_sent_grs w r) in
      let all = stop_all-Runs _ (set_call-Runs (keep_grs endcic) (λ c. refl) _ s) in
      start-Runs 23 refl _ (start-Runs 22 refl _ all)

  both_sent :
      (twice : Bool) (x : CallWorld × ℤ)
      → IsRunning (x.0)
      → IsRunning (if twice then send o 0x17 greset_params (x.0) else x).0
  both_sent true x r = send-IsRunning o g 0x17 greset_params (x.0) r
  both_sent false x r = r

  isup_grs-Saves : (endcic : ℕ) → Saves (isup_grs o endcic)
  unfolding isup_grs
  isup_grs-Saves endcic w r =
      let once = send o 0x17 greset_params (set_call (with_range endcic) w) in
      let sent = if w.ss7.switchtype == ansi then send o 0x17 greset_params (once.0) else once in
      if_Saves (too_far w.call endcic) (w, minus_one) (if_sent o (after_grs o endcic) sent)
        (running-IsSafe r)
        (if_sent-IsSafe o g (after_grs o endcic) sent (after_grs-Runs endcic) (
          both_sent (w.ss7.switchtype == ansi) once (
            send-IsRunning o g 0x17 greset_params (set_call (with_range endcic) w)
              (record { owned = r.owned; alive = r.alive }))))

  answer_group-Saves :
      (message : ℕ) (parms : List ℕ) (endcic : ℕ) (state : List ℕ)
      → Saves (answer_group o message parms endcic state)
  unfolding answer_group
  answer_group-Saves message parms endcic state w r =
      if_Saves (too_far w.call endcic) (w, minus_one)
        (unless_lost o (send o message parms (set_call (for_group endcic state) w)))
        (running-IsSafe r)
        (unless_lost-IsSafe o g _
          (send-IsRunning o g message parms _ (record { owned = r.owned; alive = r.alive })))

  isup_cgb-Saves : (endcic : ℕ) (state : List ℕ) (type : ℕ) → Saves (isup_cgb o endcic state type)
  unfolding isup_cgb
  isup_cgb-Saves endcic state type w r =
      if_Saves (too_far w.call endcic) (w, minus_one) _ (running-IsSafe r)
        (if_sent-IsSafe o g _ _
          (λ v q. start-Runs 19 refl _ (start-Runs 18 refl _ (flag-Runs _ v q)))
          (send-IsRunning o g 0x18 cicgroup_params (set_call (keep_cgb endcic state type) w)
            (record { owned = r.owned; alive = r.alive })))

  isup_cgu-Saves : (endcic : ℕ) (state : List ℕ) (type : ℕ) → Saves (isup_cgu o endcic state type)
  unfolding isup_cgu
  isup_cgu-Saves endcic state type w r =
      if_Saves (too_far w.call endcic) (w, minus_one) _ (running-IsSafe r)
        (if_sent-IsSafe o g _ _
          (λ v q. start-Runs 21 refl _ (start-Runs 20 refl _ (flag-Runs _ v q)))
          (send-IsRunning o g 0x19 cicgroup_params _ (
            start-Runs 21 refl _ (
              start-Runs 20 refl (set_call (keep_cgu endcic state type) w)
                (record { owned = r.owned; alive = r.alive })))))

  isup_iam-Saves : Saves (isup_iam o)
  unfolding isup_iam
  isup_iam-Saves w r =
      if_sent-IsSafe o g _ _ (λ v q. unflag-Runs _ _ (flag-Runs _ _ (start-Runs 7 refl v q)))
        (send-IsRunning o g 0x01 _ w r)

  isup_acm-Saves : Saves (isup_acm o)
  unfolding isup_acm
  isup_acm-Saves w r =
      if_sent-IsSafe o g _ _ (λ v q. answered-Runs o _ (flag-Runs _ v q))
        (send-IsRunning o g 0x06 acm_params w r)

  isup_anm-Saves : Saves (isup_anm o)
  unfolding isup_anm
  isup_anm-Saves w r =
      if_sent-IsSafe o g _ _ (λ v q. answered-Runs o _ (flag-Runs _ v q))
        (send-IsRunning o g 0x09 anm_params w r)

  isup_con-Saves : Saves (isup_con o)
  unfolding isup_con
  isup_con-Saves w r =
      if_sent-IsSafe o g _ _ (λ v q. q)
        (send-IsRunning o g 0x07 con_params _ (answered-Runs o _ (flag-Runs isup_sent_con w r)))

  isup_cpg-Saves : (event : ℕ) → Saves (isup_cpg o event)
  unfolding isup_cpg
  isup_cpg-Saves event w r =
      if_sent-IsSafe o g _ _ (answered-Runs o)
        (send-IsRunning o g 0x2c cpg_params _ (record { owned = r.owned; alive = r.alive }))

  isup_sus-Saves : (indicator : ℕ) → Saves (isup_sus o indicator)
  unfolding isup_sus
  isup_sus-Saves indicator w r =
      plain-Saves 0x0d sus_res_params _ (record { owned = r.owned; alive = r.alive })

  isup_res-Saves : (indicator : ℕ) → Saves (isup_res o indicator)
  unfolding isup_res
  isup_res-Saves indicator w r =
      plain-Saves 0x0e sus_res_params _ (record { owned = r.owned; alive = r.alive })

  isup_far-Saves : (next : Option CallRef) → Saves (isup_far o next)
  unfolding isup_far
  isup_far-Saves none w r = running-IsSafe r
  isup_far-Saves (some ref) w r =
      if_Saves (ref.ident == 0) (w, minus_one) _ (running-IsSafe r)
        (if_sent-IsSafe o g _ _ (flag-Runs _)
          (send-IsRunning o g 0x1f far_params _ (record { owned = r.owned; alive = r.alive })))

  isup_blo-Saves : Saves (isup_blo o)
  unfolding isup_blo
  isup_blo-Saves w r =
      if_sent-IsSafe o g _ _ (λ v q. flag-Runs _ _ (start-Runs 13 refl _ (start-Runs 12 refl v q)))
        (send-IsRunning o g 0x13 empty_params w r)

  isup_ubl-Saves : Saves (isup_ubl o)
  unfolding isup_ubl
  isup_ubl-Saves w r =
      if_sent-IsSafe o g _ _ (λ v q. flag-Runs _ _ (start-Runs 15 refl _ (start-Runs 14 refl v q)))
        (send-IsRunning o g 0x14 empty_params w r)

  pub perform-Saves : (q : Request) → Saves (perform o q)
  unfolding perform start isup_gra isup_cgba isup_cgua isup_frj isup_faa isup_rlc isup_bla isup_uba
      isup_start_digittimeout
  perform-Saves (ask_grs endcic) = isup_grs-Saves endcic
  perform-Saves (ask_gra endcic state) = answer_group-Saves _ _ endcic state
  perform-Saves (ask_cgba endcic state) = answer_group-Saves _ _ endcic state
  perform-Saves (ask_cgua endcic state) = answer_group-Saves _ _ endcic state
  perform-Saves (ask_cgb endcic state type) = isup_cgb-Saves endcic state type
  perform-Saves (ask_cgu endcic state type) = isup_cgu-Saves endcic state type
  perform-Saves ask_iam = isup_iam-Saves
  perform-Saves ask_acm = isup_acm-Saves
  perform-Saves ask_anm = isup_anm-Saves
  perform-Saves ask_con = isup_con-Saves
  perform-Saves ask_frj = plain-Saves _ _
  perform-Saves ask_faa = plain-Saves _ _
  perform-Saves ask_rlc = plain-Saves _ _
  perform-Saves ask_bla = plain-Saves _ _
  perform-Saves ask_uba = plain-Saves _ _
  perform-Saves ask_rsc = isup_rsc-Saves o g
  perform-Saves ask_blo = isup_blo-Saves
  perform-Saves ask_ubl = isup_ubl-Saves
  perform-Saves (ask_cpg event) = isup_cpg-Saves event
  perform-Saves (ask_sus indicator) = isup_sus-Saves indicator
  perform-Saves (ask_res indicator) = isup_res-Saves indicator
  perform-Saves (ask_inf ind0 ind1) = isup_inf-Saves o g ind0 ind1
  perform-Saves (ask_inr ind0 ind1) = isup_inr-Saves o g ind0 ind1
  perform-Saves (ask_far next) = isup_far-Saves next
  perform-Saves (ask_rel cause) = isup_rel-Saves o g cause
  perform-Saves ask_digittimeout = λ w r. running-IsSafe (start-Runs 10 refl w r)
  perform-Saves ask_free_call = λ w r. free-IsSafe w (running-IsSafe r)
  perform-Saves ask_free_if_clear = λ w r. free_if_clear-IsSafe w (running-IsSafe r)
  perform-Saves (ask_clear_callflags ks) =
      λ w r. running-IsSafe (isup_clear_callflags-Runs o g ks w r)
  perform-Saves (ask_event_iam opc) = isup_event_iam-Saves o g opc
