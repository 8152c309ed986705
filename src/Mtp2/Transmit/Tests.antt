-- ===== src/Mtp2/Transmit/Tests.antt =====
-- Transmissions of the links of Sample.
use libss.Base.{none, some, [], ◌∷◌, arith, ◌≡◌, refl}
use libss.Base.Int.{pos}
use libss.Mtp2.Types.{World, inservice}
use libss.Mtp2.Sample.{world_in, message}
use libss.Mtp2.Buffers.{cut, update_txbuf}
use libss.Mtp2.Transmit.{Sent, find_msg, mtp2_transmit, transmit_new}
use libss.Mtp2.Transmit.Fsn.{IsNumbered, transmit_queued, mtp2_transmit-IsNumbered}
use libss.Mtp2.Transmit.Faults.{update_txbuf-dangling}

-- Two messages are sent and one waits.
abbrev sending : World
sending = record (world_in inservice) {
  link = record (world_in inservice).link {
    tx_buf = message 20 2 ∷ message 21 1 ∷ [];
    tx_q = message 22 0 ∷ [];
  };
}

abbrev sent : Sent
sent = transmit_new sending (message 22 0) [] (pos 8)

mtp2_transmit-IsNumbered_example : IsNumbered sent.world.link
mtp2_transmit-IsNumbered_example =
    mtp2_transmit-IsNumbered sending (pos 8) sent
      (transmit_queued sending (message 22 0) [] (pos 8) refl refl)
      (record { current = omega arith; run = (refl, (refl, tt)) })

-- The older of the two is to be sent again.
abbrev retransmitting : World
retransmitting = record sending { link = record sending.link { retransmit_pos = some 21 } }

update_txbuf-dangling_example : mtp2_transmit (update_txbuf retransmitting 1) (pos 8) ≡ none
unfolding cut find_msg
update_txbuf-dangling_example = update_txbuf-dangling retransmitting 1 21 (pos 8) refl refl refl
