-- ===== src/Mtp2/Receive.antt =====
-- `mtp2_receive` and the three handlers it chooses from. Level 3 is a parameter: `mtp3_receive`
-- gets the bytes from `h->data` on with their number, and may change the link's queues.
pub mod Order
pub mod Graph
pub mod Acks
mod Tests
use libss.Base.{
  ℕ, ◌+◌, ◌-◌, ◌%◌, Bool, true, false, not, ◌&&◌, ◌||◌, List, if◌then◌else◌, ltb, ◌==◌, same,
}
use libss.Base.Int.{ℤ, pos, minus_one, eq_ℤ}
use libss.Mtp2.Types.{
  LinkState, idle, notaligned, aligned, proving, alignedready, inservice, alarm, sio, sin, sie,
  sios, fisu, mtp2_size, SuHead, Su, first_byte, Link, World,
}
use libss.Mtp2.Buffers.{mtp2_request_retransmission, mtp2_retransmit, update_txbuf}
use libss.Mtp2.States.{mtp2_setstate}

-- `mtp2_dump` records what it prints in `lastsutxd`, for both directions, when debugging is on.
-- `sent` is `prefix == '>'`; any other prefix is `'<'`.
unfoldable pub mtp2_dump : World → Bool → Su → World
mtp2_dump w sent u =
    let seen = if sent then w.link.lastsutxd else w.link.lastsurxd in
    let noted = λ (su_type : ℕ).
      if eq_ℤ seen (pos su_type)
      then w
      else record w { link = record w.link { lastsutxd = pos su_type } } in
    if w.master.debug_mtp2
    then if u.head.li == 0
      then noted fisu
      else if u.head.li == 1 || u.head.li == 2
      then noted (first_byte u)
      else w
    else w

unfoldable pub in_service : LinkState → Bool
in_service inservice = true
in_service s = false

-- The request for a retransmission at the start of `fisu_rx`.
unfoldable pub fisu_check : World → SuHead → World
fisu_check w h =
    if in_service w.link.state && not (h.fsn == w.link.lastfsnacked) && same h.fib w.link.curbib
    then record w { link = mtp2_request_retransmission w.link }
    else w

unfoldable pub fisu_state : LinkState → World → World × ℤ
fisu_state proving w = mtp2_setstate w alignedready
fisu_state alignedready w = ((mtp2_setstate w inservice).0, pos 0)
fisu_state inservice w = (w, pos 0)
fisu_state s w = (w, minus_one)

unfoldable pub fisu_rx : World → SuHead → World × ℤ
fisu_rx w h =
    let w' = fisu_check w h in
    if eq_ℤ w'.link.lastsurxd (pos fisu)
    then (w', pos 0)
    else fisu_state w'.link.state (record w' { link = record w'.link { lastsurxd = pos fisu } })

-- The proving period: the emergency one, if either side asks for it.
unfoldable pub choose_period : World → ℕ → World
choose_period w lssutype =
    let period =
      if w.link.emergency || lssutype == sie then w.link.timers.t4e else w.link.timers.t4 in
    record w { link = record w.link { provingperiod = period } }

unfoldable pub lssu_notaligned : World → ℕ → World × ℤ
lssu_notaligned w lssutype =
    if not (lssutype == sie) && not (lssutype == sin) && not (lssutype == sio)
    then mtp2_setstate w notaligned
    else mtp2_setstate (choose_period w lssutype)
        (if lssutype == sie || lssutype == sin then proving else aligned)

-- The second choice of `lssu_rx`: the emergency period again where the two periods are equal.
unfoldable pub rechoose_period : World → ℕ → World
rechoose_period w lssutype =
    if w.link.provingperiod == w.link.timers.t4 && (w.link.emergency || lssutype == sie)
    then record w { link = record w.link { provingperiod = w.link.timers.t4e } }
    else w

unfoldable pub lssu_state : LinkState → World → ℕ → World × ℤ
lssu_state idle w lssutype = lssu_notaligned w lssutype
lssu_state notaligned w lssutype = lssu_notaligned w lssutype
lssu_state aligned w lssutype =
    if lssutype == sios
    then mtp2_setstate w idle
    else mtp2_setstate (rechoose_period (choose_period w lssutype) lssutype) proving
lssu_state proving w lssutype =
    if lssutype == sios
    then mtp2_setstate w idle
    else if lssutype == sio
    then mtp2_setstate w aligned
    else (w, pos 0)
lssu_state alignedready w lssutype = mtp2_setstate w idle
lssu_state inservice w lssutype = mtp2_setstate w idle
lssu_state alarm w lssutype = (w, pos 0)

unfoldable pub lssu_rx : World → ℕ → World × ℤ
lssu_rx w lssutype =
    let l = record w.link { lastsurxd = pos lssutype } in
    let l' = if lssutype == sie then record l { emergency = true } else l in
    if eq_ℤ w.link.lastsurxd (pos lssutype)
    then (w, pos 0)
    else lssu_state w.link.state (record w { link = l' }) lssutype

-- What a message at level 2 comes to: dropped, or accepted for level 3.
pub data Verdict : Type 0 where
  dropped : World → ℤ → Verdict
  accepted : World → Verdict

-- The checks of `msu_rx` on the sequence number.
unfoldable pub msu_check : World → SuHead → Verdict
msu_check w h =
    if not (same h.fib w.link.curbib)
    then dropped w (pos 0)
    else if h.fsn == w.link.lastfsnacked
    then dropped w (pos 0)
    else if not (h.fsn == (w.link.lastfsnacked + 1) % 128)
    then dropped (record w { link = mtp2_request_retransmission w.link }) (pos 0)
    else accepted (record w { link = record w.link { lastfsnacked = h.fsn; flag_write = true } })

unfoldable pub msu_state : LinkState → World → SuHead → Verdict
msu_state alignedready w h = msu_check (mtp2_setstate w inservice).0 h
msu_state inservice w h = msu_check w h
msu_state s w h = dropped w minus_one

-- The negative acknowledgement: an inverted BIB starts a retransmission.
unfoldable pub nack_check : World → SuHead → World
nack_check w h =
    if in_service w.link.state && not (same h.bib w.link.curfib)
    then record w { link = mtp2_retransmit w.link }
    else w

-- What `mtp2_receive` does before it looks at the length indicator.
unfoldable pub take_acks : World → Su → World
take_acks w u = nack_check (update_txbuf (mtp2_dump w false u) u.head.bsn) u.head

module _ (mtp3_receive : World → List ℕ → ℕ → World × ℤ) where
  unfoldable pub finish : Verdict → Su → ℕ → World × ℤ
  finish (dropped w r) u len = (w, r)
  finish (accepted w) u len = mtp3_receive w u.body (len - mtp2_size)

  unfoldable pub msu_rx : World → Su → ℕ → World × ℤ
  msu_rx w u len = finish (msu_state w.link.state w u.head) u len

  unfoldable pub by_length : World → Su → ℕ → World × ℤ
  by_length w u len =
      if u.head.li == 0
      then fisu_rx w u.head
      else if u.head.li == 1 || u.head.li == 2
      then lssu_rx w (first_byte u)
      else msu_rx w u len

  -- `len` is the number of bytes read, which counts the two of the check sequence.
  unfoldable pub mtp2_receive : World → Su → ℕ → World × ℤ
  mtp2_receive w u len =
      if ltb len (mtp2_size + 2) then (w, pos 0) else by_length (take_acks w u) u (len - 2)
