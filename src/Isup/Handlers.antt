-- ===== src/Isup/Handlers.antt =====
-- The switch of isup_receive: what a message does, by its type, once its parameters are in the call.
-- `cic` is the circuit that the message names and `opc` the point code that it comes from.
use libss.Base.{ℕ, List, [], ◌∷◌, ◌==◌, if◌then◌else◌}
use libss.Base.Int.{ℤ}
use libss.Isup.World.{CallWorld, Outside}
use libss.Isup.Incoming.{drop_if_clear, isup_event_iam}
use libss.Isup.GroupHandlers.{on_cqm, on_grs, on_gra, on_cgb, on_cgu, on_cgba, on_cgua}
use libss.Isup.CallHandlers.{
  on_sam, on_inf, on_inr, on_rel, on_acm, on_con, on_anm, on_rlc, on_cpg, on_frj, on_faa, on_far,
  on_sus, on_res,
}
use libss.Isup.CircuitHandlers.{
  on_rsc, on_cot, on_ccr, on_cvt, on_blo, on_ubl, on_bla, on_uba, on_lpa, on_ucic,
}

module _ (o : Outside) (cic opc : ℕ) where
  -- By the type of the message, in the order of the switch.
  unfoldable pub handlers : List (ℕ × (CallWorld → CallWorld × ℤ))
  handlers =
      (0x01, isup_event_iam o opc)
      ∷ (0x02, on_sam o cic opc)
      ∷ (0x04, on_inf o cic opc)
      ∷ (0x03, on_inr o cic opc)
      ∷ (0x2a, on_cqm o cic opc)
      ∷ (0x17, on_grs o cic opc)
      ∷ (0x29, on_gra o cic opc)
      ∷ (0x12, on_rsc o cic opc)
      ∷ (0x0c, on_rel o cic opc)
      ∷ (0x06, on_acm o cic opc)
      ∷ (0x07, on_con o cic opc)
      ∷ (0x09, on_anm o cic opc)
      ∷ (0x10, on_rlc o cic opc)
      ∷ (0x05, on_cot o cic opc)
      ∷ (0x11, on_ccr o cic opc)
      ∷ (0xec, on_cvt o cic opc)
      ∷ (0x13, on_blo o cic opc)
      ∷ (0x14, on_ubl o cic opc)
      ∷ (0x15, on_bla o cic opc)
      ∷ (0x24, on_lpa o cic opc)
      ∷ (0x16, on_uba o cic opc)
      ∷ (0x18, on_cgb o cic opc)
      ∷ (0x19, on_cgu o cic opc)
      ∷ (0x2c, on_cpg o cic opc)
      ∷ (0x2e, on_ucic o cic opc)
      ∷ (0x21, on_frj o cic opc)
      ∷ (0x20, on_faa o cic opc)
      ∷ (0x1f, on_far o cic opc)
      ∷ (0x1a, on_cgba o cic opc)
      ∷ (0x1b, on_cgua o cic opc)
      ∷ (0x0d, on_sus o cic opc)
      ∷ (0x0e, on_res o cic opc)
      ∷ []

  unfoldable pub handle : List (ℕ × (CallWorld → CallWorld × ℤ)) → ℕ → CallWorld → CallWorld × ℤ
  handle [] type w = drop_if_clear o w
  handle (h ∷ hs) type w = if h.0 == type then h.1 w else handle hs type w

  unfoldable pub isup_switch : ℕ → CallWorld → CallWorld × ℤ
  isup_switch = handle handlers
