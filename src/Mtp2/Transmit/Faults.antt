-- ===== src/Mtp2/Transmit/Faults.antt =====
-- `retransmit_pos` where `update_txbuf` frees messages.
use libss.Base.{ℕ, ◌≡◌, ◌∙◌, ap, true, none, some, arith}
use libss.Base.Int.{ℤ}
use libss.Mtp2.Types.{World}
use libss.Mtp2.Buffers.{cut, update_txbuf, start_t7, stop_t7, schedule}
use libss.Mtp2.Transmit.{find_msg, mtp2_transmit}
use libss.Mtp2.Transmit.Fsn.{transmit_dangling}

-- `update_txbuf` leaves the kept part of the buffer, and the retransmission position as it was.
tx_buf-update_txbuf :
    (w : World) (b : ℕ)
    → (cut b w.link.tx_buf).1 ≡ true
    → (update_txbuf w b).link.tx_buf ≡ (cut b w.link.tx_buf).0
unfolding update_txbuf start_t7 stop_t7 schedule
tx_buf-update_txbuf w b f = ground arith

retransmit_pos-update_txbuf :
    (w : World) (b : ℕ) → (update_txbuf w b).link.retransmit_pos ≡ w.link.retransmit_pos
unfolding update_txbuf start_t7 stop_t7 schedule
retransmit_pos-update_txbuf w b = ground arith

-- Where an acknowledgement frees the message that is to be retransmitted next, the position is not
-- reset, and the next transmission reads the freed message, whatever `write` would return.
pub update_txbuf-dangling :
    (w : World) (b p : ℕ) (res : ℤ)
    → w.link.retransmit_pos ≡ some p
    → (cut b w.link.tx_buf).1 ≡ true
    → find_msg p (cut b w.link.tx_buf).0 ≡ none
    → mtp2_transmit (update_txbuf w b) res ≡ none
update_txbuf-dangling w b p res e f g =
    transmit_dangling (update_txbuf w b) p res (retransmit_pos-update_txbuf w b ∙ e)
      (ap (find_msg p) (tx_buf-update_txbuf w b f) ∙ g)
