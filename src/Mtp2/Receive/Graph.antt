-- ===== src/Mtp2/Receive/Graph.antt =====
-- `mtp2_receive` and the diagram of States/Graph.
use mathlib.Core.Path.{subst}
use libss.Base.{
  ℕ, ◌+◌, ◌-◌, ◌≡◌, refl, sym, ◌∙◌, ◌⊎◌, inl, inr, Bool, false, not, ◌&&◌, ◌||◌, List, arith, ◌==◌,
  ltb, if_cases,
}
use libss.Base.Int.{ℤ, pos, eq_ℤ}
use libss.Mtp2.Types.{
  LinkState, idle, notaligned, aligned, proving, alignedready, inservice, alarm, SuHead, Su, World,
  first_byte, sio, sin, sie, sios, fisu, mtp2_size,
}
use libss.Mtp2.Buffers.{update_txbuf, mtp2_request_retransmission, mtp2_retransmit}
use libss.Mtp2.States.{mtp2_setstate}
use libss.Mtp2.States.Graph.{
  ◌⟶◌, stay, setstate_idle_⟶, setstate_down_⟶, setstate_proving_⟶, setstate_aligned_⟶,
  setstate_ready_⟶, setstate_inservice_⟶,
}
use libss.Mtp2.Receive.{
  mtp2_dump, fisu_check, fisu_state, fisu_rx, lssu_state, lssu_rx, msu_check, msu_state, Verdict,
  dropped, accepted, finish, msu_rx, nack_check, take_acks, by_length, mtp2_receive, choose_period,
  rechoose_period, lssu_notaligned,
}

-- The call left the link in a state one move from `s`.
abbrev Goes : LinkState → World × ℤ → Type 0
Goes s r = s ⟶ r.0.link.state

unmoved : (w : World) (s : LinkState) → w.link.state ≡ s → s ⟶ w.link.state
unmoved w s e = subst (λ t. t ⟶ w.link.state) e stay

fisu_state-⟶ : (s : LinkState) (w : World) → w.link.state ≡ s → s ⟶ (fisu_state s w).0.link.state
unfolding fisu_state
fisu_state-⟶ idle w e = unmoved w idle e
fisu_state-⟶ proving w e = setstate_ready_⟶ w e
fisu_state-⟶ alignedready w e = setstate_inservice_⟶ w e
fisu_state-⟶ s w e = unmoved w s e

state-fisu_check : (w : World) (h : SuHead) → (fisu_check w h).link.state ≡ w.link.state
unfolding fisu_check mtp2_request_retransmission
state-fisu_check w h = ground arith

from : {s t : LinkState} (w : World) → w.link.state ≡ s → w.link.state ⟶ t → s ⟶ t
from {t} w e m = subst (λ s. s ⟶ t) e m

fisu_rx-⟶ : (w : World) (h : SuHead) → w.link.state ⟶ (fisu_rx w h).0.link.state
unfolding fisu_rx
fisu_rx-⟶ w h =
    let w' = fisu_check w h in
    from w' (state-fisu_check w h) (
      if_cases (Goes w'.link.state) (eq_ℤ w'.link.lastsurxd (pos fisu)) (λ _. stay)
        (λ _. fisu_state-⟶ w'.link.state _ refl))

lssu_notaligned-⟶ :
    (s : LinkState) (w : World) (n : ℕ)
    → w.link.state ≡ s
    → (s ≡ idle) ⊎ (s ≡ notaligned)
    → s ⟶ (lssu_notaligned w n).0.link.state
unfolding lssu_notaligned choose_period
lssu_notaligned-⟶ s w n e h =
    if_cases (Goes s) (not (n == sie) && not (n == sin) && not (n == sio))
      (λ _. setstate_down_⟶ w s notaligned e h (inl refl))
      (λ _. setstate_down_⟶ (choose_period w n) s _ e h (inr (ground arith)))

state-periods :
    (w : World) (n : ℕ) → (rechoose_period (choose_period w n) n).link.state ≡ w.link.state
unfolding choose_period rechoose_period
state-periods w n = ground arith

lssu_state-⟶ :
    (s : LinkState) (w : World) (n : ℕ) → w.link.state ≡ s → s ⟶ (lssu_state s w n).0.link.state
unfolding lssu_state
lssu_state-⟶ idle w n e = lssu_notaligned-⟶ idle w n e (inl refl)
lssu_state-⟶ notaligned w n e = lssu_notaligned-⟶ notaligned w n e (inr refl)
lssu_state-⟶ aligned w n e =
    if_cases (Goes aligned) (n == sios) (λ _. from w e (setstate_idle_⟶ w))
      (λ _. setstate_proving_⟶ (rechoose_period (choose_period w n) n) (state-periods w n ∙ e))
lssu_state-⟶ proving w n e =
    if_cases (Goes proving) (n == sios) (λ _. from w e (setstate_idle_⟶ w))
      (λ _.
        if_cases (Goes proving) (n == sio) (λ _. setstate_aligned_⟶ w e) (λ _. unmoved w proving e))
lssu_state-⟶ alignedready w n e = from w e (setstate_idle_⟶ w)
lssu_state-⟶ inservice w n e = from w e (setstate_idle_⟶ w)
lssu_state-⟶ alarm w n e = unmoved w alarm e

lssu_rx-⟶ : (w : World) (n : ℕ) → w.link.state ⟶ (lssu_rx w n).0.link.state
unfolding lssu_rx
lssu_rx-⟶ w n =
    if_cases (Goes w.link.state) (eq_ℤ w.link.lastsurxd (pos n)) (λ _. stay)
      (λ _. lssu_state-⟶ w.link.state _ n (ground arith))

abbrev verdict_world : Verdict → World
verdict_world (dropped w r) = w
verdict_world (accepted w) = w

state-msu_check :
    (w : World) (h : SuHead) → (verdict_world (msu_check w h)).link.state ≡ w.link.state
unfolding msu_check mtp2_request_retransmission
state-msu_check w h = ground arith

msu_state-⟶ :
    (s : LinkState) (w : World) (h : SuHead)
    → w.link.state ≡ s
    → s ⟶ (verdict_world (msu_state s w h)).link.state
unfolding msu_state
msu_state-⟶ idle w h e = unmoved w idle e
msu_state-⟶ alignedready w h e =
    rw (state-msu_check (mtp2_setstate w inservice).0 h) (setstate_inservice_⟶ w e)
msu_state-⟶ inservice w h e = rw (state-msu_check w h) (unmoved w inservice e)
msu_state-⟶ s w h e = unmoved w s e

state-update_txbuf : (w : World) (n : ℕ) → (update_txbuf w n).link.state ≡ w.link.state
unfolding update_txbuf
state-update_txbuf w n = ground arith

state-mtp2_dump : (w : World) (b : Bool) (u : Su) → (mtp2_dump w b u).link.state ≡ w.link.state
unfolding mtp2_dump
state-mtp2_dump w b u = ground arith

state-nack_check : (w : World) (h : SuHead) → (nack_check w h).link.state ≡ w.link.state
unfolding nack_check mtp2_retransmit
state-nack_check w h = ground arith

pub state-take_acks : (w : World) (u : Su) → (take_acks w u).link.state ≡ w.link.state
unfolding take_acks
state-take_acks w u =
    state-nack_check (update_txbuf (mtp2_dump w false u) u.head.bsn) u.head
    ∙ state-update_txbuf (mtp2_dump w false u) u.head.bsn
    ∙ state-mtp2_dump w false u

-- A level 3 that leaves the state of the link alone.
abbrev pub KeepsState : (World → List ℕ → ℕ → World × ℤ) → Type 0
KeepsState mtp3 = (w : World) (b : List ℕ) (n : ℕ) → (mtp3 w b n).0.link.state ≡ w.link.state

module _ (mtp3_receive : World → List ℕ → ℕ → World × ℤ) (keeps : KeepsState mtp3_receive) where
  finish-⟶ :
      (s : LinkState) (v : Verdict) (u : Su) (n : ℕ)
      → s ⟶ (verdict_world v).link.state
      → s ⟶ (finish mtp3_receive v u n).0.link.state
  unfolding finish
  finish-⟶ s (dropped w r) u n m = m
  finish-⟶ s (accepted w) u n m = subst (λ t. s ⟶ t) (sym (keeps w u.body (n - mtp2_size))) m

  by_length-⟶ :
      (w : World) (u : Su) (n : ℕ) → w.link.state ⟶ (by_length mtp3_receive w u n).0.link.state
  unfolding by_length msu_rx
  by_length-⟶ w u n =
      if_cases (Goes w.link.state) (u.head.li == 0) (λ _. fisu_rx-⟶ w u.head)
        (λ _.
          if_cases (Goes w.link.state) (u.head.li == 1 || u.head.li == 2)
            (λ _. lssu_rx-⟶ w (first_byte u))
            (λ _. finish-⟶ w.link.state _ u n (msu_state-⟶ w.link.state w u.head refl)))

  -- Whatever signal unit arrives, over a level 3 that leaves the state alone, `mtp2_receive` leaves
  -- the link in its state or moves it along one edge of the diagram; so a link comes into service
  -- from aligned-ready alone, and that from proving alone.
  pub mtp2_receive-⟶ :
      (w : World) (u : Su) (len : ℕ)
      → w.link.state ⟶ (mtp2_receive mtp3_receive w u len).0.link.state
  unfolding mtp2_receive
  mtp2_receive-⟶ w u len =
      if_cases (Goes w.link.state) (ltb len (mtp2_size + 2)) (λ _. stay)
        (λ _. from (take_acks w u) (state-take_acks w u) (by_length-⟶ (take_acks w u) u (len - 2)))
