-- ===== src/Mtp3/Delivery/Tests.antt =====
-- Two exchanges of an ITU network.
use libss.Base.{ℕ, ◌≡◌, refl, inl, none, [], arith}
use libss.Base.Int.{pos}
use libss.Mtp2.Transmit.{itu}
use libss.Mtp3.Label.{RoutingLabel}
use libss.Mtp3.Label.Roundtrip.{of_itu}
use libss.Mtp3.Delivery.{Node, Via, isup, user_part, mtp3_transmit, mtp3_receive}
use libss.Mtp3.Delivery.Arrives.{message, passed, mtp3_receive-mtp3_transmit}
use libss.Mtp3.Delivery.Guard.{Guards, mtp3_receive-Guards}

abbrev here : Node
here = record { switchtype = itu; ni = 2; pc = 300; sls_shift = 0; links = [] }

abbrev there : Node
there = record here { pc = 8191 }

abbrev link : Via
link = record { dpc = 300; slc = 0; adj_state = 1 }

abbrev label : RoutingLabel
label = record { type = itu; dpc = 8191; opc = 300; sls = 9 }

mtp3_receive-mtp3_transmit_example :
    passed here there link 5 label 0 (λ i. i) none 20 ≡ isup label 5 (pos 15)
unfolding user_part
mtp3_receive-mtp3_transmit_example =
    mtp3_receive-mtp3_transmit here there link 5 0 label (λ i. i) none 20 refl refl (omega arith)
      (omega arith) (omega arith) refl (of_itu refl (omega arith) (omega arith) (omega arith)) refl
      (inl refl)

abbrev arrived : ℕ → ℕ
arrived = (mtp3_transmit here 5 label 0 (message (λ i. i) label) none).1

mtp3_receive-Guards_example : Guards there link arrived (mtp3_receive there link arrived 20)
mtp3_receive-Guards_example = mtp3_receive-Guards there link arrived 20
