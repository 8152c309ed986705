-- ===== src/Isup/Running/Handling.antt =====
-- The timers of a call behind the switch of isup_receive.
use libss.Base.{ℕ, List, [], ◌∷◌, ◌==◌}
use libss.Base.Int.{ℤ}
use libss.Isup.World.{CallWorld, Outside}
use libss.Isup.Handlers.{handlers, handle, isup_switch}
use libss.Isup.Running.{IsRunning, IsSafe, IsGentle, Saves, running-IsSafe, if_Saves}
use libss.Isup.Running.Sending.{drop_if_clear-IsSafe, isup_event_iam-Saves}
use libss.Isup.Running.Groups.{
  on_cqm-Saves, on_grs-Saves, on_gra-Saves, on_cgb-Saves, on_cgu-Saves, on_cgba-Saves,
  on_cgua-Saves,
}
use libss.Isup.Running.Circuits.{
  on_rsc-Saves, on_cot-Saves, on_ccr-Saves, on_cvt-Saves, on_blo-Saves, on_ubl-Saves, on_bla-Saves,
  on_lpa-Saves, on_uba-Saves, on_ucic-Saves,
}
use libss.Isup.Running.Calls.{
  on_sam-Saves, on_inf-Saves, on_inr-Saves, on_rel-Saves, on_acm-Saves, on_con-Saves, on_anm-Saves,
  on_rlc-Saves, on_cpg-Saves, on_frj-Saves, on_faa-Saves, on_far-Saves, on_sus-Saves, on_res-Saves,
}

module _ (o : Outside) (g : IsGentle o) (cic opc : ℕ) where
  abbrev AllSave : List (ℕ × (CallWorld → CallWorld × ℤ)) → Type 0
  AllSave [] = Unit {0}
  AllSave (h ∷ hs) = Saves (h.1) × AllSave hs

  handle-IsSafe :
      (hs : List (ℕ × (CallWorld → CallWorld × ℤ))) (type : ℕ)
      → AllSave hs
      → Saves (handle o cic opc hs type)
  unfolding handle
  handle-IsSafe [] type a w r = drop_if_clear-IsSafe o g w (running-IsSafe r)
  handle-IsSafe (h ∷ hs) type a w r =
      if_Saves (h.0 == type) (h.1 w) _ (a.0 w r) (handle-IsSafe hs type (a.1) w r)

  handlers-AllSave : AllSave (handlers o cic opc)
  unfolding handlers
  handlers-AllSave = (
    isup_event_iam-Saves o g opc,
    (
      on_sam-Saves o g cic opc,
      (
        on_inf-Saves o g cic opc,
        (
          on_inr-Saves o g cic opc,
          (
            on_cqm-Saves o g cic opc,
            (
              on_grs-Saves o g cic opc,
              (
                on_gra-Saves o g cic opc,
                (
                  on_rsc-Saves o g cic opc,
                  (
                    on_rel-Saves o g cic opc,
                    (
                      on_acm-Saves o g cic opc,
                      (
                        on_con-Saves o g cic opc,
                        (
                          on_anm-Saves o g cic opc,
                          (
                            on_rlc-Saves o g cic opc,
                            (
                              on_cot-Saves o g cic opc,
                              (
                                on_ccr-Saves o g cic opc,
                                (
                                  on_cvt-Saves o g cic opc,
                                  (
                                    on_blo-Saves o g cic opc,
                                    (
                                      on_ubl-Saves o g cic opc,
                                      (
                                        on_bla-Saves o g cic opc,
                                        (
                                          on_lpa-Saves o g cic opc,
                                          (
                                            on_uba-Saves o g cic opc,
                                            (
                                              on_cgb-Saves o g cic opc,
                                              (
                                                on_cgu-Saves o g cic opc,
                                                (
                                                  on_cpg-Saves o g cic opc,
                                                  (
                                                    on_ucic-Saves o g cic opc,
                                                    (
                                                      on_frj-Saves o g cic opc,
                                                      (
                                                        on_faa-Saves o g cic opc,
                                                        (
                                                          on_far-Saves o g cic opc,
                                                          (
                                                            on_cgba-Saves o g cic opc,
                                                            (
                                                            on_cgua-Saves o g cic opc,
                                                            (
                                                            on_sus-Saves o g cic opc,
                                                            (on_res-Saves o g cic opc, tt),
                                                            ),
                                                            ),
                                                          ),
                                                        ),
                                                      ),
                                                    ),
                                                  ),
                                                ),
                                              ),
                                            ),
                                          ),
                                        ),
                                      ),
                                    ),
                                  ),
                                ),
                              ),
                            ),
                          ),
                        ),
                      ),
                    ),
                  ),
                ),
              ),
            ),
          ),
        ),
      ),
    ),
  )

  -- A message of any type for a call of the list, where the functions outside are gentle: afterwards
  -- each timer of the call still names exactly the slot of the scheduler's table that is its own, and if
  -- the call was freed no slot is that of a timer of the call.
  pub isup_switch-IsSafe :
      (type : ℕ) (w : CallWorld) → IsRunning w → IsSafe (isup_switch o cic opc type w).0
  unfolding isup_switch
  isup_switch-IsSafe type w r = handle-IsSafe (handlers o cic opc) type handlers-AllSave w r
