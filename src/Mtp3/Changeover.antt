-- ===== src/Mtp3/Changeover.antt =====
-- mtp3_move_buffer, and how mtp3_changeover collects what a failed link has not delivered.
mod Order
mod Tests
use libss.Base.{
  ℕ, ◌+◌, ◌-◌, ◌%◌, ◌^◌, Bool, true, false, ◌&&◌, Option, none, some, List, [], ◌∷◌, ◌++◌,
  if◌then◌else◌, ◌==◌, ltb, get_or,
}
use libss.Mtp2.Types.{Msg}
use libss.Mtp2.Buffers.{cut}
use libss.Mtp3.Label.{RoutingLabel, get_routinglabel, get_userpart}

-- `buf + MTP2_SIZE`
abbrev pub data_of : Msg → ℕ → ℕ
data_of m i = get_or m.su.body i 0

-- For a user part above 3 and the point code `dpc`, which is none for -1.
is_for : Option ℕ → ℕ → Bool
is_for none d = true
is_for (some dpc) d = d == dpc

unfoldable pub goes : ℕ → Option ℕ → Msg → Bool
unfolding is_for get_userpart get_routinglabel
goes switchtype dpc m =
    ltb 3 (get_userpart (data_of m 0))
    && is_for dpc ((get_routinglabel switchtype (λ i. data_of m (i + 1))).0).dpc

-- `from` is one of the buffers whose messages mtp2_msu has made longer by 2.
unfoldable pub shrink : Bool → Msg → Msg
shrink true m = record m { size = (m.size + 2 ^ 32 - 2) % 2 ^ 32 }
shrink false m = m

-- `*from`, `*to`, which is none where `to` is NULL, and `link->retransmit_pos`.
pub record Moved : Type 0 where
  pub from : List Msg
  pub to : Option (List Msg)
  pub retransmit_pos : Option ℕ

first_addr : List Msg → Option ℕ
first_addr [] = none
first_addr (m ∷ ms) = some m.addr

unfoldable pub next_pos : Option ℕ → Msg → List Msg → Option ℕ
unfolding first_addr
next_pos none m ms = none
next_pos (some a) m ms = if a == m.addr then first_addr ms else some a

-- The message is put at the end, or freed.
abbrev pub put : Option (List Msg) → Msg → Option (List Msg)
put none m = none
put (some to) m = some (to ++ m ∷ [])

-- The loop.
module _ (switchtype : ℕ) (counted : Bool) (dpc : Option ℕ) where
  unfoldable pub move_from : List Msg → Option (List Msg) → Option ℕ → Moved
  unfolding goes shrink next_pos
  move_from [] to p = record { from = []; to = to; retransmit_pos = p }
  move_from (m ∷ ms) to p =
      let g = goes switchtype dpc m in
      let rest =
        move_from ms (if g then put to (shrink counted m) else to)
          (if g then next_pos p m ms else p) in
      if g then rest else record rest { from = m ∷ rest.from }

  -- `fsn` is none for -1.
  unfoldable pub mtp3_move_buffer : List Msg → Option (List Msg) → Option ℕ → Option ℕ → Moved
  unfolding move_from cut
  mtp3_move_buffer from to none p = move_from from to p
  mtp3_move_buffer from to (some fsn) p = move_from ((cut fsn from).0) to p

-- The buffers of a link whose changeover was prepared.
pub record Changing : Type 0 where
  pub co_tx_buf : List Msg
  pub co_tx_q : List Msg
  pub co_buf : List Msg
  pub retransmit_pos : Option ℕ

-- The three moves of mtp3_changeover into `tmp`, which it then transmits from the front.
unfoldable pub collect : ℕ → ℕ → Changing → Changing × Option (List Msg)
unfolding mtp3_move_buffer
collect switchtype fsn l =
    let sent =
      mtp3_move_buffer switchtype true none l.co_tx_buf (some []) (some fsn) l.retransmit_pos in
    let queued = mtp3_move_buffer switchtype true none l.co_tx_q sent.to none sent.retransmit_pos in
    let kept =
      mtp3_move_buffer switchtype false none l.co_buf queued.to none queued.retransmit_pos in
    (
      record {
        co_tx_buf = sent.from;
        co_tx_q = queued.from;
        co_buf = kept.from;
        retransmit_pos = kept.retransmit_pos;
      },
      kept.to,
    )
