-- ===== src/Mtp2/States/Tests.antt =====
-- Links at level 2, and the state machine at them.
use libss.Base.{refl}
use libss.Mtp2.Types.{proving, t4_expiry}
use libss.Mtp2.States.{expire}
use libss.Mtp2.States.Graph.{◌⟶◌, t4, expire-⟶}
use libss.Mtp2.Sample.{world_in}

expire-⟶_example : proving ⟶ (expire t4_expiry (world_in proving)).link.state
expire-⟶_example = expire-⟶ t4_expiry (world_in proving) t4 refl
