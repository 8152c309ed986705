-- ===== src/Mtp3/Delivery/Arrives.antt =====
-- What one exchange transmits and the other receives.
use mathlib.Core.Path.{subst}
use libss.Base.{ℕ, zero, suc, true, ◌∙◌, ◌+◌, ◌<◌, ◌≡◌, ◌⊎◌, arith, Option, ◌==◌}
use libss.Base.Int.{pos}
use libss.Mtp3.Label.{RoutingLabel, write, set_routinglabel, get_routinglabel, get_ni, get_userpart}
use libss.Mtp3.Label.Roundtrip.{IsValid, label_size, set_routinglabel-Roundtrips}
use libss.Mtp3.Delivery.{
  Node, Via, Received, sig_isup, sio, mtp3_transmit, user_part, labelled, mtp3_receive,
}

sio-get_ni : (a : Node) (u p : ℕ) → a.ni < 4 → u < 16 → p < 4 → get_ni (sio a u p) ≡ a.ni
unfolding get_ni sio
sio-get_ni a u p hn hu hp = ground arith

sio-get_userpart : (a : Node) (u p : ℕ) → u < 16 → p < 4 → get_userpart (sio a u p) ≡ u
unfolding get_userpart sio
sio-get_userpart a u p hu hp = ground arith

itself : (n : ℕ) → (n == n) ≡ true
itself n = ground arith

labelled-passes :
    (b : Node) (link : Via) (u len : ℕ) (rl : RoutingLabel) (n : ℕ)
    → b.pc ≡ rl.dpc
    → ((u ≡ sig_isup) ⊎ ((link.dpc ≡ rl.opc) × (link.slc ≡ rl.sls)))
    → labelled b link u len rl n ≡ user_part link.adj_state u rl n len
unfolding labelled
labelled-passes b link u len rl n e h = grind arith

-- A message with the label of `rl` behind its octet.
abbrev pub message : (ℕ → ℕ) → RoutingLabel → ℕ → ℕ
message m rl zero = m 0
message m rl (suc i) = (set_routinglabel (λ j. m (suc j)) rl).0 i

label-read :
    (m : ℕ → ℕ) (rl : RoutingLabel) (t v : ℕ)
    → rl.type ≡ t
    → IsValid rl
    → get_routinglabel t (λ i. write (message m rl) 0 v (i + 1)) ≡ (rl, pos (label_size t))
unfolding get_routinglabel write
label-read m rl t v e h =
    subst
      (λ t. get_routinglabel t (λ i. write (message m rl) 0 v (i + 1)) ≡ (rl, pos (label_size t))) e
      (set_routinglabel-Roundtrips (λ j. m (suc j)) rl h).back

-- What another exchange of the same network makes of a message that is transmitted.
abbrev pub passed : Node → Node → Via → ℕ → RoutingLabel → ℕ → (ℕ → ℕ) → Option ℕ → ℕ → Received
passed a b link u rl priority m k len =
    mtp3_receive b link ((mtp3_transmit a u rl priority (message m rl) k).1) len

-- Between two exchanges of one network, with a network indicator of 2 bits, a user part of 4 and a
-- priority of 2, and a label that fits its fields and is addressed to the receiver: whichever link
-- or buffer the sender chose, mtp3_receive hands the message with that very label to its user part,
-- from the byte behind the label on, where that is ISUP or the label is that of the neighbour and of
-- the number of the link over which the message arrives.
pub mtp3_receive-mtp3_transmit :
    (a b : Node) (link : Via) (u priority : ℕ) (rl : RoutingLabel) (m : ℕ → ℕ) (k : Option ℕ)
    (len : ℕ)
    → a.switchtype ≡ b.switchtype
    → a.ni ≡ b.ni
    → a.ni < 4
    → u < 16
    → priority < 4
    → rl.type ≡ a.switchtype
    → IsValid rl
    → b.pc ≡ rl.dpc
    → ((u ≡ sig_isup) ⊎ ((link.dpc ≡ rl.opc) × (link.slc ≡ rl.sls)))
    → passed a b link u rl priority m k len
      ≡ user_part link.adj_state u rl (label_size b.switchtype) len
unfolding mtp3_receive mtp3_transmit labelled user_part
mtp3_receive-mtp3_transmit a b link u p rl m k len es en hn hu hp et h e to =
    rw
      (
        label-read m rl b.switchtype (sio a u p) (et ∙ es) h,
        sio-get_ni a u p hn hu hp,
        sio-get_userpart a u p hu hp,
        en,
        itself b.ni,
      )
      (labelled-passes b link u len rl _ e to)
