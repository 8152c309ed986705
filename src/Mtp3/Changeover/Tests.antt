-- ===== src/Mtp3/Changeover/Tests.antt =====
-- Two messages for ISUP that were sent, numbers 7 and 8, and one that waits.
use libss.Base.{ℕ, ◌≡◌, refl, true, none, some, [], ◌∷◌, arith}
use libss.Mtp2.Transmit.{itu}
use libss.Mtp2.Types.{Msg}
use libss.Mtp3.Changeover.{Changing, collect}
use libss.Mtp3.Changeover.Order.{collected, collect_lem}

abbrev sent : ℕ → ℕ → Msg
sent a n = record {
  addr = a;
  su = record {
    head = record { bsn = 127; bib = true; fsn = n; fib = true; li = 9 };
    body = 133 ∷ 255 ∷ 31 ∷ 75 ∷ 144 ∷ 17 ∷ 0 ∷ 6 ∷ [];
  };
  size = 13;
}

abbrev failed : Changing
failed = record {
  co_tx_buf = sent 2 8 ∷ sent 1 7 ∷ [];
  co_tx_q = sent 3 0 ∷ [];
  co_buf = [];
  retransmit_pos = none;
}

collect_lem_example : (collect itu 6 failed).1 ≡ some (collected 8 6 failed)
collect_lem_example =
    collect_lem itu 8 6 failed (omega arith) (omega arith) (refl, (refl, tt))
      (omega arith, omega arith, (omega arith, omega arith, tt)) (omega arith, omega arith, tt)
