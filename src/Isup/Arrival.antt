-- ===== src/Isup/Arrival.antt =====
-- `isup_receive` for a message, which begins with its circuit at `at` and has `len` bytes, behind
-- isup_find_call: the call is the one that it has given. None would be a loop that does not end; an
-- overrun is an access outside of an array while the parameters are read, of which C leaves undefined
-- what comes, so that there is no world after it.
use libss.Base.{ℕ, ◌+◌, Option, none, some}
use libss.Base.Int.{ℤ, minus_one}
use libss.Isup.Bytes.{Mem}
use libss.Isup.Call.{Call}
use libss.Isup.Parms.{Result, overrun, refused, ok}
use libss.Isup.Messages.{MessageData, message_of}
use libss.Isup.Receive.{get_cic, isup_read}
use libss.Isup.World.{CallWorld, Outside, set_call, free}
use libss.Isup.Handlers.{isup_switch}

module _ (o : Outside) (opc : ℕ) where
  -- What was read: a message with a mandatory parameter that cannot be read ends the call.
  unfoldable pub go_by : ℕ → ℕ → CallWorld → Option (Result Call) → Option (Result (CallWorld × ℤ))
  go_by cic type w none = none
  go_by cic type w (some overrun) = some overrun
  go_by cic type w (some refused) = some (ok (free (o.call_null w 1), minus_one))
  go_by cic type w (some (ok c)) = some (ok (isup_switch o cic opc type (set_call (λ d. c) w)))

  -- A message of an unknown type is left at that.
  abbrev pub if_known :
      Option MessageData
      → CallWorld
      → Option (Result (CallWorld × ℤ))
      → Option (Result (CallWorld × ℤ))
  if_known none w k = some (ok (w, minus_one))
  if_known (some x) w k = k

  unfoldable pub isup_receive : Mem → ℕ → ℕ → CallWorld → Option (Result (CallWorld × ℤ))
  unfolding go_by
  isup_receive m at len w =
      if_known (message_of w.ss7.switchtype (m (at + 2))) w
        (go_by (get_cic w.ss7 m at) (m (at + 2)) w (isup_read w.ss7 w.call m at len))
