-- ===== src/Mtp2/Receive/Tests.antt =====
-- Signal units received by the links of Sample, and an acknowledgement over three messages.
use libss.Base.{ℕ, List, [], ◌∷◌, arith, ltb, length, refl, ◌≡◌}
use libss.Base.Int.{ℤ, pos}
use libss.Mtp2.Types.{World, Msg, proving, inservice}
use libss.Mtp2.Sample.{world_in, unit, message}
use libss.Mtp2.Buffers.{cut}
use libss.Mtp2.States.Graph.{◌⟶◌}
use libss.Mtp2.Receive.{mtp2_receive}
use libss.Mtp2.Receive.Graph.{mtp2_receive-⟶}
use libss.Mtp2.Receive.Order.{Delivery, mtp2_receive-Delivery}
use libss.Mtp2.Receive.Acks.{take, newer, cut_lem}

-- A level 3 that does nothing.
abbrev ignore : World → List ℕ → ℕ → World × ℤ
ignore w b n = (w, pos 0)

mtp2_receive-⟶_example :
    proving ⟶ (mtp2_receive ignore (world_in proving) (unit 0 0) 5).0.link.state
mtp2_receive-⟶_example = mtp2_receive-⟶ ignore (λ w b n. refl) (world_in proving) (unit 0 0) 5

mtp2_receive-Delivery_example : Delivery (world_in inservice) (unit 0 5) 10
mtp2_receive-Delivery_example = mtp2_receive-Delivery (world_in inservice) (unit 0 5) 10

abbrev three : List Msg
three = message 10 1 ∷ message 11 0 ∷ message 12 127 ∷ []

cut_lem_example : cut 0 three ≡ (take (newer 1 0) three, ltb (newer 1 0) (length three))
cut_lem_example = cut_lem 1 0 three (omega arith) (omega arith) (refl, (refl, (refl, tt)))
