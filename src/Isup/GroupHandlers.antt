-- ===== src/Isup/GroupHandlers.antt =====
-- The messages for a group of circuits in the switch of isup_receive. `cic` is the circuit that the
-- message names and `opc` the point code that it comes from. Of an array in an event, the entries are
-- given that are written.
use libss.Base.{ℕ, ◌+◌, Bool, ◌&&◌, Option, none, some, List, [], ◌∷◌, ◌==◌, if◌then◌else◌, take}
use libss.Base.Int.{ℤ, pos}
use libss.Isup.Call.{Call}
use libss.Isup.Status.{isup_check_status}
use libss.Isup.Flags.{isup_sent_grs, isup_sent_cgb, isup_sent_cgu, isup_sent_grs2, has}
use libss.Isup.World.{
  IsupEvent, GroupEvent, cqm, grs, gra, cgb, cgu, cgba, cgua, CallWorld, Outside, flags, unflag,
  stop_each, event,
}
use libss.Isup.Incoming.{isup_handle_unexpected, isup_clear_callflags}

abbrev range_states : Call → List ℕ
range_states c = take (c.range + 1) c.status

-- Whether a message is for the circuits up to `endcic` (`range == endcic - cic`).
abbrev is_range : Call → ℕ → Bool
is_range c endcic = c.range + c.cic == endcic

-- Where two resets were sent, the first answer takes the mark of the second reset.
abbrev grs_flag : CallWorld → List ℕ
grs_flag w = (if flags w isup_sent_grs2 then isup_sent_grs2 else isup_sent_grs) ∷ []

module _ (o : Outside) (cic opc : ℕ) where
  -- A message that is only expected where one of the flags is set.
  unfoldable pub expecting : List ℕ → (CallWorld → CallWorld × ℤ) → CallWorld → CallWorld × ℤ
  expecting ks handler w = if has ks (flags w) then handler w else isup_handle_unexpected o opc w

  unfoldable pub on_cqm : CallWorld → CallWorld × ℤ
  on_cqm w = event o (cqm cic opc (cic + w.call.range)) (λ w. w) w

  unfoldable pub on_grs : CallWorld → CallWorld × ℤ
  on_grs w = event o (grs cic opc (cic + w.call.range)) (λ w. w) w

  gra_event : CallWorld → IsupEvent
  gra_event w =
      gra cic opc (cic + w.call.range) (range_states w.call) w.call.groups.grs_endcic (flags w)

  unfoldable pub after_gra : CallWorld → CallWorld
  after_gra w = stop_each (22 ∷ 23 ∷ []) (unflag (grs_flag w) w)

  unfoldable pub got_gra : CallWorld → CallWorld × ℤ
  unfolding gra_event after_gra
  got_gra w =
      if is_range w.call w.call.groups.grs_endcic
      then event o (gra_event w) after_gra w
      else (w, pos 0)

  unfoldable pub on_gra : CallWorld → CallWorld × ℤ
  unfolding got_gra
  on_gra = expecting (isup_sent_grs ∷ []) got_gra

  unfoldable pub on_cgb : CallWorld → CallWorld × ℤ
  on_cgb w =
      let c = w.call in
      event o (cgb cic opc (cic + c.range) c.cicgroupsupervisiontype (range_states c)) (λ w. w) w

  unfoldable pub on_cgu : CallWorld → CallWorld × ℤ
  on_cgu w =
      let c = w.call in
      event o (cgu cic opc (cic + c.range) c.cicgroupsupervisiontype (range_states c)) (λ w. w) w

  -- What was sent for a group: the last circuit, the type and the states.
  group_event : Call → ℕ → ℕ → List ℕ → GroupEvent
  group_event c endcic type status = record {
    startcic = c.cic;
    endcic = c.cic + c.range;
    type = c.cicgroupsupervisiontype;
    status = range_states c;
    sent_endcic = endcic;
    sent_type = type;
    sent_status = take (c.range + 1) status;
  }

  -- The comparison of the states: none is a read behind an array.
  unfoldable pub accept : (CallWorld → CallWorld × ℤ) → CallWorld → Option ℕ → CallWorld × ℤ
  accept handler w none = (record w { overruns = w.overruns + 1 }, pos 0)
  accept handler w (some r) = if r == 0 then handler w else (w, pos 0)

  -- An answer is passed over where it does not match what was sent.
  unfoldable pub matching : ℕ → ℕ → List ℕ → (CallWorld → CallWorld × ℤ) → CallWorld → CallWorld × ℤ
  unfolding accept
  matching endcic type status handler w =
      let c = w.call in
      if is_range c endcic && c.cicgroupsupervisiontype == type
      then accept handler w (isup_check_status status c.status c.range)
      else (w, pos 0)

  unfoldable pub accept_cgba : CallWorld → CallWorld × ℤ
  unfolding group_event
  accept_cgba w =
      let g = w.call.groups in
      let e = group_event w.call g.cgb_endcic g.cgb_type g.cgb_status in
      event o (cgba opc e (flags w)) (isup_clear_callflags (isup_sent_cgb ∷ [])) w

  unfoldable pub got_cgba : CallWorld → CallWorld × ℤ
  unfolding matching accept_cgba
  got_cgba w = let g = w.call.groups in matching g.cgb_endcic g.cgb_type g.cgb_status accept_cgba w

  unfoldable pub on_cgba : CallWorld → CallWorld × ℤ
  unfolding got_cgba
  on_cgba = expecting (isup_sent_cgb ∷ []) got_cgba

  unfoldable pub accept_cgua : CallWorld → CallWorld × ℤ
  unfolding group_event
  accept_cgua w =
      let g = w.call.groups in
      let e = group_event w.call g.cgu_endcic g.cgu_type g.cgu_status in
      event o (cgua opc e (flags w)) (isup_clear_callflags (isup_sent_cgu ∷ [])) w

  unfoldable pub got_cgua : CallWorld → CallWorld × ℤ
  unfolding matching accept_cgua
  got_cgua w = let g = w.call.groups in matching g.cgu_endcic g.cgu_type g.cgu_status accept_cgua w

  unfoldable pub on_cgua : CallWorld → CallWorld × ℤ
  unfolding got_cgua
  on_cgua = expecting (isup_sent_cgu ∷ []) got_cgua
