-- ===== src/Isup/GroupSenders.antt =====
-- The functions that send a message for a group of circuits, `isup_cqr` to `isup_cgua`. The arrays
-- that they are given have an entry for each of them, and the last circuit is not before the first.
use libss.Base.{ℕ, ◌+◌, ◌-◌, Bool, List, ◌==◌, if◌then◌else◌, ltb}
use libss.Base.Int.{ℤ, minus_one}
use libss.Mtp2.Transmit.{ansi}
use libss.Isup.Call.{Call}
use libss.Isup.Calls.{zeroed}
use libss.Isup.Messages.{greset_params, cicgroup_params, cqr_params}
use libss.Isup.Flags.{isup_sent_grs, isup_sent_cgb, isup_sent_cgu, isup_sent_grs2}
use libss.Isup.World.{
  CallWorld, Outside, set_call, flag, start, stop_all, send, send_local, if_sent, unless_lost,
  copy_status,
}

-- The most circuits that a message for a group may be for, less one.
abbrev pub too_far : Call → ℕ → Bool
too_far c endcic = ltb 31 (endcic - c.cic)

abbrev pub with_range : ℕ → Call → Call
with_range endcic c = record c { range = endcic - c.cic }

-- The states of the circuits from c->cic to `endcic`.
abbrev pub put_states : ℕ → List ℕ → Call → Call
put_states endcic state c = record c { status = copy_status (endcic + 1 - c.cic) state c.status }

abbrev pub for_group : ℕ → List ℕ → Call → Call
for_group endcic state c = put_states endcic state (with_range endcic c)

-- What isup_cgb and isup_cgu keep of what they send.
abbrev pub keep_cgb : ℕ → List ℕ → ℕ → Call → Call
keep_cgb endcic state type c = record (for_group endcic state c) {
  cicgroupsupervisiontype = type;
  groups = record c.groups {
    cgb_type = type;
    cgb_endcic = endcic;
    cgb_status = copy_status (endcic + 1 - c.cic) state c.groups.cgb_status;
  };
}

abbrev pub keep_cgu : ℕ → List ℕ → ℕ → Call → Call
keep_cgu endcic state type c = record (for_group endcic state c) {
  cicgroupsupervisiontype = type;
  groups = record c.groups {
    cgu_type = type;
    cgu_endcic = endcic;
    cgu_status = copy_status (endcic + 1 - c.cic) state c.groups.cgu_status;
  };
}

abbrev pub keep_grs : ℕ → Call → Call
keep_grs endcic c = record c { groups = record c.groups { grs_endcic = endcic } }

module _ (o : Outside) where
  -- The array `status` of the call has 255 entries.
  unfoldable pub isup_cqr : ℕ → ℕ → ℕ → List ℕ → CallWorld → CallWorld × ℤ
  isup_cqr begincic endcic dpc status w =
      let n = endcic + 1 - begincic in
      let range = endcic - begincic in
      let w' = if ltb 255 n then record w { overruns = w.overruns + 1 } else w in
      let c = record zeroed {
        status = copy_status n status zeroed.status;
        cic = begincic;
        range = range;
        dpc = dpc;
      } in
      if ltb 31 range then (w', minus_one) else send_local o c 0x2b cqr_params w'

  unfoldable pub after_grs : ℕ → CallWorld → CallWorld
  after_grs endcic w =
      let w₁ = flag isup_sent_grs w in
      let w₂ = if w.ss7.switchtype == ansi then flag isup_sent_grs2 w₁ else w₁ in
      start 23 (start 22 (stop_all (set_call (keep_grs endcic) w₂)))

  -- For ANSI the message is sent twice, and the second answer counts.
  unfoldable pub isup_grs : ℕ → CallWorld → CallWorld × ℤ
  unfolding after_grs
  isup_grs endcic w =
      let once = send o 0x17 greset_params (set_call (with_range endcic) w) in
      let sent = if w.ss7.switchtype == ansi then send o 0x17 greset_params (once.0) else once in
      if too_far w.call endcic then (w, minus_one) else if_sent o (after_grs endcic) sent

  -- isup_gra, isup_cgba and isup_cgua, which differ in the message.
  unfoldable pub answer_group : ℕ → List ℕ → ℕ → List ℕ → CallWorld → CallWorld × ℤ
  answer_group messagetype parms endcic state w =
      if too_far w.call endcic
      then (w, minus_one)
      else unless_lost o (send o messagetype parms (set_call (for_group endcic state) w))

  unfoldable pub isup_gra : ℕ → List ℕ → CallWorld → CallWorld × ℤ
  unfolding answer_group
  isup_gra = answer_group 0x29 greset_params

  unfoldable pub isup_cgba : ℕ → List ℕ → CallWorld → CallWorld × ℤ
  unfolding answer_group
  isup_cgba = answer_group 0x1a cicgroup_params

  unfoldable pub isup_cgua : ℕ → List ℕ → CallWorld → CallWorld × ℤ
  unfolding answer_group
  isup_cgua = answer_group 0x1b cicgroup_params

  unfoldable pub isup_cgb : ℕ → List ℕ → ℕ → CallWorld → CallWorld × ℤ
  isup_cgb endcic state type w =
      if too_far w.call endcic
      then (w, minus_one)
      else if_sent o (λ w. start 19 (start 18 (flag isup_sent_cgb w)))
          (send o 0x18 cicgroup_params (set_call (keep_cgb endcic state type) w))

  unfoldable pub isup_cgu : ℕ → List ℕ → ℕ → CallWorld → CallWorld × ℤ
  isup_cgu endcic state type w =
      let w' = start 21 (start 20 (set_call (keep_cgu endcic state type) w)) in
      if too_far w.call endcic
      then (w, minus_one)
      else if_sent o (λ w. start 21 (start 20 (flag isup_sent_cgu w)))
          (send o 0x19 cicgroup_params w')
