-- ===== src/Mtp2/Buffers.antt =====
-- The buffers of a link: `tx_q` holds the messages to send, oldest first; `tx_buf` those that are
-- sent and not acknowledged, newest first; `retransmit_pos` points into `tx_buf`.
use libss.Base.{
  ℕ, ◌+◌, ◌-◌, ◌^◌, ◌%◌, Bool, true, false, not, ◌&&◌, Option, none, some, List, [], ◌∷◌, ◌++◌,
  if◌then◌else◌, ltb, ◌==◌, get_last?,
}
use libss.Base.Int.{ℤ, pos, is_nonneg}
use libss.Sched.{ss7_schedule_event, ss7_schedule_del}
use libss.Mtp2.Types.{SuHead, Msg, Link, Callback, t7_expiry, World, mtp2_size}

abbrev pub u32_mod : ℕ
u32_mod = 2 ^ 32

-- ss7_schedule_event(link->master, ms, f, link)
unfoldable pub schedule : World → ℕ → Callback → World × ℤ
schedule w ms f =
    let (t, x) = ss7_schedule_event w.master.sched w.master.now ms f w.link.addr in
    (record w { master = record w.master { sched = t } }, x)

unfoldable pub start_t7 : World → World
unfolding schedule
start_t7 w =
    let (w', x) = schedule w w.link.timers.t7 t7_expiry in
    record w' { link = record w'.link { t7 = x } }

unfoldable pub stop_t7 : World → World
stop_t7 w =
    let (t, x) = ss7_schedule_del w.master.sched w.link.t7 in
    record { link = record w.link { t7 = x }; master = record w.master { sched = t } }

unfoldable pub flush_bufs : Link → Link
flush_bufs l = record l { tx_buf = []; tx_q = []; retransmit_pos = none }

unfoldable pub reset_mtp : Link → Link
unfolding flush_bufs
reset_mtp l = flush_bufs (record l {
  curfsn = 127;
  curfib = true;
  curbib = true;
  lastfsnacked = 127;
  retransmissioncount = 0;
  flag_write = true;
})

unfoldable pub mtp2_request_retransmission : Link → Link
mtp2_request_retransmission l = record l {
  retransmissioncount = (l.retransmissioncount + 1) % u32_mod;
  curbib = not l.curbib;
  flag_write = true;
}

unfoldable pub mtp2_queue_su : Link → Msg → Link
mtp2_queue_su l m = record l { tx_q = l.tx_q ++ m ∷ [] }

-- The length indicator is the length of the message, or 63 for all that are longer.
unfoldable pub mtp2_msu : Link → Msg → Link × ℤ
unfolding mtp2_queue_su
mtp2_msu l m =
    let len = (m.size + u32_mod - mtp2_size) % u32_mod in
    let li = if ltb 63 len && ltb len (2 ^ 31) then 63 else len % 64 in
    let su = record m.su { head = record m.su.head { li = li } } in
    (
      mtp2_queue_su (record l { flag_write = true })
          (record m { su = su; size = (m.size + 2) % u32_mod }),
      pos 0,
    )

unfoldable pub add_txbuf : Link → Msg → Link
add_txbuf l m = record l { tx_buf = m ∷ l.tx_buf }

-- The address of the message before the one at `p`, from the newest on; where none is at `p`, that
-- of the last message.
unfoldable pub prev_of : Option ℕ → ℕ → List Msg → Option ℕ
prev_of prev p [] = prev
prev_of prev p (m ∷ ms) = if m.addr == p then prev else prev_of (some m.addr) p ms

unfoldable pub update_retransmit_pos : Link → Link
unfolding prev_of
update_retransmit_pos l = record l {
  retransmit_pos = elim l.retransmit_pos [
    | none ↦ elim (get_last? l.tx_buf) [ none ↦ none | some m ↦ some m.addr ]
    | some p ↦ prev_of none p l.tx_buf
  ];
}

-- The oldest message is the last of the buffer.
unfoldable pub mtp2_retransmit : Link → Link
mtp2_retransmit l =
    let l' = record l { flag_write = true; curfib = not l.curfib } in
    elim (get_last? l.tx_buf) [ none ↦ l' | some m ↦ record l' { retransmit_pos = some m.addr } ]

-- The messages before the first one whose FSN is `upto`, and whether there is such a one: it and
-- all behind it are freed.
unfoldable pub cut : ℕ → List Msg → List Msg × Bool
cut upto [] = ([], false)
cut upto (m ∷ ms) =
    let (kept, found) = cut upto ms in
    if m.su.head.fsn == upto then ([], true) else (m ∷ kept, found)

-- update_txbuf(link, &link->tx_buf, upto)
unfoldable pub update_txbuf : World → ℕ → World
unfolding cut start_t7 stop_t7
update_txbuf w upto =
    let (kept, found) = cut upto w.link.tx_buf in
    let w' = if found then record w { link = record w.link { tx_buf = kept } } else w in
    let stopped = stop_t7 w' in
    if found && is_nonneg w'.link.t7
    then elim w'.link.tx_buf [ [] ↦ stopped | m ∷ ms ↦ start_t7 stopped ]
    else w'

-- `init_mtp2_header`: the link and the header after it.
unfoldable pub init_mtp2_header : Link → SuHead → Bool → Bool → Link × SuHead
init_mtp2_header l h new nack =
    let l₁ = if new then record l { curfsn = (l.curfsn + 1) % 128; flag_write = true } else l in
    let l₂ = if nack then record l₁ { curbib = not l₁.curbib; flag_write = true } else l₁ in
    (l₂, record h { fib = l₁.curfib; fsn = l₁.curfsn; bib = l₂.curbib; bsn = l₂.lastfsnacked })
