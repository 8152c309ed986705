-- ===== src/Mtp2/Transmit.antt =====
-- `mtp2_transmit`, the signal units it makes, and `mtp2_new`. The number that `write` returns is
-- an argument.
pub mod Fsn
pub mod Faults
mod Tests
use libss.Base.{
  ℕ, Bool, true, false, ◌||◌, Option, none, some, List, [], ◌∷◌, if◌then◌else◌, leb, ◌==◌,
}
use libss.Base.Int.{ℤ, pos, negsuc, minus_one, eq_ℤ, is_positive}
use libss.Mtp2.Types.{
  LinkState, idle, sio, sios, sib, fisu, lssu_size, fisu_size, SuHead, Su, Msg, Timers, Link, World,
}
use libss.Mtp2.Buffers.{reset_mtp, start_t7, add_txbuf, update_retransmit_pos, init_mtp2_header}
use libss.Mtp2.Receive.{mtp2_dump}

abbrev blank_head : SuHead
blank_head = record { bsn = 0; bib = false; fsn = 0; fib = false; li = 0 }

-- The link after it, and the unit in the buffer.
unfoldable pub make_lssu : Link → ℕ → Link × Su
make_lssu l lssu_status =
    let l' = if lssu_status == sios || lssu_status == sio then reset_mtp l else l in
    let head =
      if leb lssu_status sib
      then record {
        bsn = l'.lastfsnacked;
        bib = l'.curbib;
        fsn = l'.curfsn;
        fib = l'.curfib;
        li = 1;
      }
      else record blank_head { li = 1 } in
    (l', record { head = head; body = lssu_status ∷ 0 ∷ 0 ∷ [] })

unfoldable pub make_fisu : Link → Bool → Link × Su
make_fisu l nack =
    let (l', h) = init_mtp2_header l blank_head false nack in
    (l', record { head = record h { li = 0 }; body = 0 ∷ 0 ∷ [] })

unfoldable pub find_msg : ℕ → List Msg → Option Msg
find_msg p [] = none
find_msg p (m ∷ ms) = if m.addr == p then some m else find_msg p ms

-- The message at `p` is changed in place.
unfoldable pub replace_msg : Msg → List Msg → List Msg
replace_msg m [] = []
replace_msg m (n ∷ ns) = if n.addr == m.addr then m ∷ ns else n ∷ replace_msg m ns

-- What `mtp2_transmit` did: the world after it, what `write` returned, and what was handed to it.
pub record Sent : Type 0 where
  pub world : World
  pub res : ℤ
  pub unit : Su
  pub size : ℕ

-- `retransmit` is set: FIB and BSN are brought up to date in the buffer.
unfoldable pub transmit_again : World → Msg → ℤ → Sent
transmit_again w m res =
    let h = record m.su.head { fib = w.link.curfib; bsn = w.link.lastfsnacked } in
    let m' = record m { su = record m.su { head = h } } in
    let w₁ = record w { link = record w.link { tx_buf = replace_msg m' w.link.tx_buf } } in
    let w₂ = mtp2_dump w₁ true m'.su in
    record {
      world = if is_positive res then record w₂ { link = update_retransmit_pos w₂.link } else w₁;
      res = res;
      unit = m'.su;
      size = m.size;
    }

-- The oldest message of `tx_q` is sent for the first time.
unfoldable pub transmit_new : World → Msg → List Msg → ℤ → Sent
transmit_new w m rest res =
    let (l₁, h) = init_mtp2_header w.link m.su.head true false in
    let m' = record m { su = record m.su { head = h } } in
    let w₁ = record w { link = add_txbuf (record l₁ { tx_q = rest }) m' } in
    let w₂ = if eq_ℤ w₁.link.t7 minus_one then start_t7 w₁ else w₁ in
    record {
      world =
          if is_positive res
          then mtp2_dump w₂ true m'.su
          else record w₂ { link = record w₂.link { retransmit_pos = some m'.addr } };
      res = res;
      unit = m'.su;
      size = m.size;
    }

-- There is no message to send: a FISU or an LSSU.
unfoldable pub transmit_auto : World → ℤ → Sent
transmit_auto w res =
    let is_fisu = w.link.autotxsutype == fisu in
    let (l, u) = if is_fisu then make_fisu w.link false else make_lssu w.link w.link.autotxsutype in
    let w₁ = record w { link = l } in
    let w₂ = mtp2_dump w₁ true u in
    record {
      world =
          if is_positive res
          then record w₂ { link = record w₂.link { flag_write = false } }
          else w₁;
      res = res;
      unit = u;
      size = if is_fisu then fisu_size else lssu_size;
    }

-- `none`: the message that `retransmit_pos` points to is no longer in the buffer, and the code
-- reads freed memory.
unfoldable pub mtp2_transmit : World → ℤ → Option Sent
mtp2_transmit w res = elim w.link.retransmit_pos [
  | some p ↦ elim (find_msg p w.link.tx_buf) [
    | none ↦ none
    | some m ↦ some (transmit_again w m res)
  ]
  | none ↦ elim w.link.tx_q [
    | [] ↦ some (transmit_auto w res)
    | m ∷ rest ↦ some (transmit_new w m rest res)
  ]
]

-- The switch types, SS7_ITU and SS7_ANSI.
abbrev pub itu : ℕ
itu = 1

abbrev pub ansi : ℕ
ansi = 2

unfoldable pub timers_for : ℕ → Timers
timers_for switchtype =
    if switchtype == itu
    then record { t1 = 45000; t2 = 50000; t3 = 1500; t4 = 8500; t4e = 500; t7 = 1250 }
    else if switchtype == ansi
    then record { t1 = 16000; t2 = 11500; t3 = 11500; t4 = 2300; t4e = 600; t7 = 1250 }
    else record { t1 = 0; t2 = 0; t3 = 0; t4 = 0; t4e = 0; t7 = 0 }

-- `addr` is what `calloc` returns. All that the function does not set is zero, timers included.
unfoldable pub mtp2_new : ℕ → ℕ → ℕ → Link
mtp2_new addr fd switchtype = record (reset_mtp zeroed) {
  fd = fd;
  autotxsutype = sios;
  lastsurxd = minus_one;
  lastsutxd = minus_one;
  timers = timers_for switchtype;
}
  where
    zeroed : Link
    zeroed = record {
      addr = addr;
      state = idle;
      curfsn = 0;
      curfib = false;
      lastfsnacked = 0;
      curbib = false;
      fd = 0;
      flag_dahdimtp2 = false;
      flag_write = false;
      t1 = pos 0;
      t2 = pos 0;
      t3 = pos 0;
      t4 = pos 0;
      t7 = pos 0;
      timers = record { t1 = 0; t2 = 0; t3 = 0; t4 = 0; t4e = 0; t7 = 0 };
      emergency = false;
      provingperiod = 0;
      autotxsutype = 0;
      lastsurxd = pos 0;
      lastsutxd = pos 0;
      retransmissioncount = 0;
      tx_buf = [];
      tx_q = [];
      retransmit_pos = none;
    }
