-- ===== src/Mtp2/States/Graph.antt =====
-- The diagram of link states, with the timers and buffers left out.
use mathlib.Core.Path.{subst}
use libss.Base.{◌≡◌, ◌⊎◌, arith}
use libss.Base.Int.{minus_one}
use libss.Mtp2.Types.{
  LinkState, idle, notaligned, aligned, proving, alignedready, inservice, Callback, t1_expiry,
  t2_expiry, t3_expiry, t4_expiry, t7_expiry, World,
}
use libss.Mtp2.States.{mtp2_setstate, timer_expiry, t7_expired, expire}

infix 40 ◌⟶◌
-- The moves of a link under its own protocol.
pub data ◌⟶◌ : LinkState → LinkState → Type 0 where
  stay : {s : LinkState} → s ⟶ s
  begin : idle ⟶ notaligned
  align : notaligned ⟶ aligned
  prove : notaligned ⟶ proving
  prove_aligned : aligned ⟶ proving
  realign : proving ⟶ aligned
  proved : proving ⟶ alignedready
  enter : alignedready ⟶ inservice
  fail_aligned : aligned ⟶ notaligned
  fail_proving : proving ⟶ notaligned
  fail_ready : alignedready ⟶ notaligned
  fail_service : inservice ⟶ notaligned

pub ruleset moves = (
  stay, begin, align, prove, prove_aligned, realign, proved, enter, fail_aligned, fail_proving,
  fail_ready, fail_service,
)

-- A request for one state, from the states in which the handlers make it.
pub setstate_idle_⟶ : (w : World) → w.link.state ⟶ (mtp2_setstate w idle).0.link.state
unfolding mtp2_setstate
setstate_idle_⟶ w = grind (arith, moves)

pub setstate_down_⟶ :
    (w : World) (s t : LinkState)
    → w.link.state ≡ s
    → (s ≡ idle) ⊎ (s ≡ notaligned)
    → (t ≡ notaligned) ⊎ ((t ≡ aligned) ⊎ (t ≡ proving))
    → s ⟶ (mtp2_setstate w t).0.link.state
unfolding mtp2_setstate
setstate_down_⟶ w s t e h k = grind (arith, moves)

pub setstate_proving_⟶ :
    (w : World) → w.link.state ≡ aligned → aligned ⟶ (mtp2_setstate w proving).0.link.state
unfolding mtp2_setstate
setstate_proving_⟶ w h = grind (arith, moves)

pub setstate_aligned_⟶ :
    (w : World) → w.link.state ≡ proving → proving ⟶ (mtp2_setstate w aligned).0.link.state
unfolding mtp2_setstate
setstate_aligned_⟶ w h = grind (arith, moves)

pub setstate_ready_⟶ :
    (w : World) → w.link.state ≡ proving → proving ⟶ (mtp2_setstate w alignedready).0.link.state
unfolding mtp2_setstate
setstate_ready_⟶ w h = grind (arith, moves)

pub setstate_inservice_⟶ :
    (w : World)
    → w.link.state ≡ alignedready
    → alignedready ⟶ (mtp2_setstate w inservice).0.link.state
unfolding mtp2_setstate
setstate_inservice_⟶ w h = grind (arith, moves)

-- A timer that expires in the state that it belongs to follows the diagram; T7 may expire anywhere.
pub data Belongs : Callback → LinkState → Type 0 where
  t1 : Belongs t1_expiry alignedready
  t2 : Belongs t2_expiry notaligned
  t3 : Belongs t3_expiry aligned
  t4 : Belongs t4_expiry proving
  t7 : {s : LinkState} → Belongs t7_expiry s

-- An expiry function of level 2, called in the state to which its timer belongs (T7 in any state),
-- moves the link along an edge of the diagram.
pub expire-⟶ :
    (f : Callback) (w : World) {s : LinkState}
    → Belongs f s
    → w.link.state ≡ s
    → s ⟶ (expire f w).link.state
unfolding expire
expire-⟶ f w t1 e = subst (λ s. s ⟶ (timer_expiry w).link.state) e (setstate_idle_⟶ w)
expire-⟶ f w t2 e = subst (λ s. s ⟶ (timer_expiry w).link.state) e (setstate_idle_⟶ w)
expire-⟶ f w t3 e = subst (λ s. s ⟶ (timer_expiry w).link.state) e (setstate_idle_⟶ w)
expire-⟶ f w t4 e = setstate_ready_⟶ w e
expire-⟶ f w t7 e =
    subst (λ s. s ⟶ (t7_expired w).link.state) e
      (setstate_idle_⟶ (record w { link = record w.link { t7 = minus_one } }))
