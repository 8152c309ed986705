-- ===== src/Isup/Expiry.antt =====
-- `isup_timer_expiry`, the callback of the timers of a call. Of the answers of isup_send_message none
-- is looked at.
use libss.Base.{ℕ, ◌-◌, List, [], ◌∷◌, ◌==◌, if◌then◌else◌, set}
use libss.Base.Int.{pos, minus_one}
use libss.Isup.Call.{Call}
use libss.Isup.Messages.{rel_params, greset_params, cicgroup_params, empty_params}
use libss.Isup.Flags.{isup_sent_rsc, isup_sent_inr}
use libss.Isup.World.{
  digittimeout, CallWorld, Outside, set_call, flag, unflag, start, stop, stop_all, send, event,
}
use libss.Isup.GroupSenders.{put_states}
use libss.Isup.Senders.{isup_rel, isup_rsc}
use libss.Isup.Incoming.{hangup_send_rel}

abbrev pub expired : ℕ → CallWorld → CallWorld
expired timer = set_call (λ c. record c { timer = set c.timer timer minus_one })

-- The block or the unblock of the group is sent again as it was.
abbrev pub cgb_again : Call → Call
cgb_again c =
    put_states c.groups.cgb_endcic c.groups.cgb_status (record c {
      range = c.groups.cgb_endcic - c.cic;
      cicgroupsupervisiontype = c.groups.cgb_type;
    })

abbrev pub cgu_again : Call → Call
cgu_again c =
    put_states c.groups.cgu_endcic c.groups.cgu_status (record c {
      range = c.groups.cgu_endcic - c.cic;
      cicgroupsupervisiontype = c.groups.cgu_type;
    })

abbrev pub grs_again : Call → Call
grs_again c = record c { range = c.groups.grs_endcic - c.cic }

-- `timer` is started, unless it is `other` that has expired.
abbrev pub start_unless : ℕ → ℕ → ℕ → CallWorld → CallWorld
start_unless other timer expiring w = if expiring == other then w else start timer w

module _ (o : Outside) where
  unfoldable pub on_t1 : CallWorld → CallWorld
  on_t1 w = start 1 (send o 0x0c rel_params w).0

  unfoldable pub on_t16 : CallWorld → CallWorld
  on_t16 w = start 16 (send o 0x12 empty_params (flag isup_sent_rsc w)).0

  unfoldable pub hang_up : ℕ → CallWorld → CallWorld
  hang_up cause w = (o.hangup w w.call.cic w.call.dpc cause hangup_send_rel).0

  unfoldable pub on_t17 : CallWorld → CallWorld
  on_t17 w = start 17 (send o 0x12 empty_params (flag isup_sent_rsc (stop_all w))).0

  unfoldable pub on_t5 : CallWorld → CallWorld
  unfolding on_t17
  on_t5 w = on_t17 (o.notinservice w w.call.cic w.call.dpc)

  unfoldable pub on_t10 : CallWorld → CallWorld
  on_t10 w = (event o (digittimeout w.call.cic w.call.dpc w.call.cot) (λ w. w) w).0

  -- T12 and T14, and the longer T13 and T15, which end them.
  unfoldable pub send_again : ℕ → ℕ → CallWorld → CallWorld
  send_again timer message w = start timer (send o message empty_params w).0

  unfoldable pub on_t18 : ℕ → CallWorld → CallWorld
  on_t18 expiring w =
      (send o 0x18 cicgroup_params (set_call cgb_again (start_unless 19 18 expiring w))).0

  unfoldable pub on_t19 : CallWorld → CallWorld
  unfolding on_t18
  on_t19 w = on_t18 19 (start 19 (stop 18 w))

  unfoldable pub on_t22 : ℕ → CallWorld → CallWorld
  on_t22 expiring w =
      (send o 0x17 greset_params (set_call grs_again (start_unless 23 22 expiring w))).0

  unfoldable pub on_t23 : ℕ → CallWorld → CallWorld
  unfolding on_t22
  on_t23 expiring w = on_t22 expiring (start 23 (stop 22 w))

  -- No break ends this case: the code goes on with that of T23.
  unfoldable pub on_t20 : ℕ → CallWorld → CallWorld
  unfolding on_t23
  on_t20 expiring w =
      on_t23 expiring
        (send o 0x19 cicgroup_params (set_call cgu_again (start_unless 21 20 expiring w))).0

  unfoldable pub on_t21 : CallWorld → CallWorld
  unfolding on_t20
  on_t21 w = on_t20 21 (start 21 (stop 20 w))

  unfoldable pub expiries : List (ℕ × (CallWorld → CallWorld))
  expiries =
      (1, on_t1)
      ∷ (16, on_t16)
      ∷ (2, hang_up 16)
      ∷ (6, hang_up 16)
      ∷ (7, hang_up 31)
      ∷ (8, λ w. (isup_rel o (pos 41) w).0)
      ∷ (5, on_t5)
      ∷ (17, on_t17)
      ∷ (10, on_t10)
      ∷ (12, send_again 12 0x13)
      ∷ (13, λ w. send_again 13 0x13 (stop 12 w))
      ∷ (14, send_again 14 0x14)
      ∷ (15, λ w. send_again 15 0x14 (stop 14 w))
      ∷ (19, on_t19)
      ∷ (18, on_t18 18)
      ∷ (21, on_t21)
      ∷ (20, on_t20 20)
      ∷ (23, on_t23 23)
      ∷ (22, on_t22 22)
      ∷ (27, λ w. (isup_rsc o w).0)
      ∷ (33, λ w. (isup_rel o (pos 16) (unflag (isup_sent_inr ∷ []) w)).0)
      ∷ (35, λ w. (isup_rel o (pos 28) w).0)
      ∷ []

  abbrev pub expiry_of : List (ℕ × (CallWorld → CallWorld)) → ℕ → CallWorld → CallWorld
  expiry_of [] timer w = w
  expiry_of (e ∷ es) timer w = if e.0 == timer then e.1 w else expiry_of es timer w

  unfoldable pub isup_timer_expiry : ℕ → CallWorld → CallWorld
  isup_timer_expiry timer w = expiry_of expiries timer (expired timer w)
