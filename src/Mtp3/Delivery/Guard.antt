-- ===== src/Mtp3/Delivery/Guard.antt =====
-- What mtp3_receive lets through.
use libss.Base.{ℕ, ◌+◌, ◌≡◌, ◌⊎◌, refl, inl, inr, Bool-cases, arith, ◌==◌, if◌then◌else◌, not}
use libss.Base.Int.{to_ℕ}
use libss.Mtp3.Label.{RoutingLabel, get_routinglabel, get_ni, get_userpart}
use libss.Mtp3.Select.{mtp3_up}
use libss.Mtp3.Delivery.{
  Node, Via, Received, refused, not_up, dropped, std_test, isup, net_mng, user_part, labelled,
  mtp3_receive,
}

-- A message of the link's own test or of the management of the network.
pub record IsOfLink (ss7 : Node) (link : Via) (rl : RoutingLabel) : Type 0 where
  pub to_us : rl.dpc ≡ ss7.pc
  pub from_link : rl.opc ≡ link.dpc
  pub on_link : rl.sls ≡ link.slc

abbrev pub Admits : Node → Via → Received → Type 0
Admits ss7 link refused = Unit
Admits ss7 link not_up = Unit
Admits ss7 link dropped = Unit
Admits ss7 link (std_test rl) = IsOfLink ss7 link rl
Admits ss7 link (isup rl at n) = (rl.dpc ≡ ss7.pc) × (link.adj_state ≡ mtp3_up)
Admits ss7 link (net_mng rl) = IsOfLink ss7 link rl

labelled-Admits :
    (ss7 : Node) (link : Via) (u len : ℕ) (rl : RoutingLabel) (n : ℕ)
    → Admits ss7 link (labelled ss7 link u len rl n)
unfolding labelled user_part
labelled-Admits ss7 link u len rl n = ground arith

-- The network indicator of what is not refused is that of the exchange, and what is handed on is admitted.
abbrev pub Guards : Node → Via → (ℕ → ℕ) → Received → Type 0
Guards ss7 link m r = ((r ≡ refused) ⊎ (get_ni (m 0) ≡ ss7.ni)) × Admits ss7 link r

Admits-Guards :
    (ss7 : Node) (link : Via) (m : ℕ → ℕ) (x : Received)
    → Admits ss7 link x
    → Guards ss7 link m (if not (ss7.ni == get_ni (m 0)) then refused else x)
Admits-Guards ss7 link m x h = elim (Bool-cases (ss7.ni == get_ni (m 0))) [
  | inl e ↦ rw e (inr (grind arith), h)
  | inr e ↦ rw e (inl refl, tt)
]

-- Whatever arrives over a link: mtp3_receive refuses it, or its network indicator is ours. What
-- it hands to isup_receive has a label for our point code, and the neighbour of the link is up;
-- what it hands to std_test_receive or net_mng_receive has a label for our point code, from that
-- of the link and with the number of the link.
pub mtp3_receive-Guards :
    (ss7 : Node) (link : Via) (m : ℕ → ℕ) (len : ℕ)
    → Guards ss7 link m (mtp3_receive ss7 link m len)
unfolding mtp3_receive get_ni
mtp3_receive-Guards ss7 link m len =
    let label = get_routinglabel ss7.switchtype (λ i. m (i + 1)) in
    Admits-Guards ss7 link m _
      (labelled-Admits ss7 link (get_userpart (m 0)) len (label.0) (to_ℕ (label.1)))
