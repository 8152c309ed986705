-- ===== src/Isup/Running/Groups.antt =====
-- The timers of a call behind the messages for a group of circuits.
use libss.Base.{ℕ, ◌+◌, ◌&&◌, Option, none, some, List, ◌==◌}
use libss.Base.Int.{ℤ, pos}
use libss.Isup.Flags.{has}
use libss.Isup.Status.{isup_check_status}
use libss.Isup.World.{CallWorld, Outside, flags}
use libss.Isup.GroupHandlers.{
  expecting, on_cqm, on_grs, on_gra, got_gra, after_gra, on_cgb, on_cgu, accept, matching,
  accept_cgba, got_cgba, on_cgba, accept_cgua, got_cgua, on_cgua,
}
use libss.Isup.Running.{
  IsRunning, IsSafe, IsGentle, Runs, Saves, running-IsSafe, if_Saves, unflag-Runs, stop_each-Runs,
  event-IsSafe,
}
use libss.Isup.Running.Sending.{isup_handle_unexpected-Saves, isup_clear_callflags-Runs}

pub unchanged : Runs (λ w. w)
unchanged w r = r

module _ (o : Outside) (g : IsGentle o) (cic opc : ℕ) where
  pub expecting-Saves :
      (ks : List ℕ) (h : CallWorld → CallWorld × ℤ) → Saves h → Saves (expecting o cic opc ks h)
  unfolding expecting
  expecting-Saves ks h s w r =
      if_Saves (has ks (flags w)) _ _ (s w r) (isup_handle_unexpected-Saves o g opc w r)

  pub on_cqm-Saves : Saves (on_cqm o cic opc)
  unfolding on_cqm
  on_cqm-Saves w r = event-IsSafe o g _ _ unchanged w r

  pub on_grs-Saves : Saves (on_grs o cic opc)
  unfolding on_grs
  on_grs-Saves w r = event-IsSafe o g _ _ unchanged w r

  pub on_cgb-Saves : Saves (on_cgb o cic opc)
  unfolding on_cgb
  on_cgb-Saves w r = event-IsSafe o g _ _ unchanged w r

  pub on_cgu-Saves : Saves (on_cgu o cic opc)
  unfolding on_cgu
  on_cgu-Saves w r = event-IsSafe o g _ _ unchanged w r

  after_gra-Runs : Runs (after_gra o cic opc)
  unfolding after_gra
  after_gra-Runs w r = stop_each-Runs _ _ (unflag-Runs _ w r)

  pub on_gra-Saves : Saves (on_gra o cic opc)
  unfolding on_gra got_gra
  on_gra-Saves =
      expecting-Saves _ _
        (λ w r. if_Saves _ _ _ (event-IsSafe o g _ _ after_gra-Runs w r) (running-IsSafe r))

  accept-Saves :
      (h : CallWorld → CallWorld × ℤ) (w : CallWorld) (v : Option ℕ)
      → Saves h
      → IsRunning w
      → IsSafe (accept o cic opc h w v).0
  unfolding accept
  accept-Saves h w none s r = running-IsSafe (record { owned = r.owned; alive = r.alive })
  accept-Saves h w (some k) s r = if_Saves (k == 0) _ _ (s w r) (running-IsSafe r)

  matching-Saves :
      (endcic type : ℕ) (status : List ℕ) (h : CallWorld → CallWorld × ℤ)
      → Saves h
      → Saves (matching o cic opc endcic type status h)
  unfolding matching
  matching-Saves endcic type status h s w r =
      let c = w.call in
      let verdict = isup_check_status status c.status c.range in
      if_Saves (c.range + c.cic == endcic && c.cicgroupsupervisiontype == type)
        (accept o cic opc h w verdict) (w, pos 0) (accept-Saves h w verdict s r) (running-IsSafe r)

  accept_cgba-Saves : Saves (accept_cgba o cic opc)
  unfolding accept_cgba
  accept_cgba-Saves w r = event-IsSafe o g _ _ (isup_clear_callflags-Runs o g _) w r

  pub on_cgba-Saves : Saves (on_cgba o cic opc)
  unfolding on_cgba got_cgba
  on_cgba-Saves =
      expecting-Saves _ _
        (λ w r. matching-Saves _ _ _ (accept_cgba o cic opc) accept_cgba-Saves w r)

  accept_cgua-Saves : Saves (accept_cgua o cic opc)
  unfolding accept_cgua
  accept_cgua-Saves w r = event-IsSafe o g _ _ (isup_clear_callflags-Runs o g _) w r

  pub on_cgua-Saves : Saves (on_cgua o cic opc)
  unfolding on_cgua got_cgua
  on_cgua-Saves =
      expecting-Saves _ _
        (λ w r. matching-Saves _ _ _ (accept_cgua o cic opc) accept_cgua-Saves w r)
