-- ===== src/Isup/Incoming/Seizure.antt =====
-- An IAM from each end for the same circuit.
use libss.Base.{ℕ, ◌≡◌, true, [], ◌∷◌}
use libss.Isup.Flags.{isup_sent_iam, isup_pending_iam, isup_got_iam, has}
use libss.Isup.World.{CallWorld, Outside, flags, flag}
use libss.Isup.Incoming.{hangup_reevent_iam, cause_try_again}

-- One that has sent an IAM or is to send it.
abbrev pub IsCalling : CallWorld → Type 0
IsCalling w = has (isup_sent_iam ∷ isup_pending_iam ∷ []) (flags w) ≡ true

-- The application is told to give up its call and to take the IAM as a new event.
abbrev pub given_up : Outside → ℕ → CallWorld → CallWorld
given_up o opc w =
    (o.hangup (flag isup_got_iam w) w.call.cic opc cause_try_again hangup_reevent_iam).0
