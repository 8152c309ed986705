-- ===== src/Mtp2/Receive/Order.antt =====
-- Which messages `mtp2_receive` hands to level 3.
use mathlib.Core.Path.{subst}
use libss.Base.{
  ℕ, ◌+◌, ◌-◌, ◌%◌, ◌≡◌, refl, ◌∙◌, inl, inr, Bool, false, not, ◌&&◌, ◌||◌, List, arith, ◌==◌, ltb,
  if_cases, Bool-cases,
}
use libss.Base.Int.{ℤ, pos, eq_ℤ}
use libss.Mtp2.Types.{
  LinkState, idle, notaligned, aligned, proving, alignedready, inservice, alarm, sio, sin, sie,
  sios, SuHead, Su, World, first_byte, mtp2_size, fisu,
}
use libss.Mtp2.Buffers.{update_txbuf, mtp2_request_retransmission, mtp2_retransmit}
use libss.Mtp2.States.{mtp2_setstate}
use libss.Mtp2.Receive.{
  mtp2_dump, fisu_check, fisu_state, fisu_rx, lssu_state, lssu_rx, msu_check, msu_state, Verdict,
  dropped, accepted, finish, msu_rx, nack_check, take_acks, by_length, mtp2_receive, choose_period,
  rechoose_period, lssu_notaligned,
}

last-setstate :
    (w : World) (s : LinkState) → (mtp2_setstate w s).0.link.lastfsnacked ≡ w.link.lastfsnacked
unfolding mtp2_setstate
last-setstate w s = ground arith

-- The call left the number of the last accepted message at `n`.
abbrev Keeps : ℕ → World × ℤ → Type 0
Keeps n r = r.0.link.lastfsnacked ≡ n

last-fisu_check :
    (w : World) (h : SuHead) → (fisu_check w h).link.lastfsnacked ≡ w.link.lastfsnacked
unfolding fisu_check mtp2_request_retransmission
last-fisu_check w h = ground arith

last-fisu_state : (s : LinkState) (w : World) → Keeps w.link.lastfsnacked (fisu_state s w)
unfolding fisu_state
last-fisu_state proving w = last-setstate w alignedready
last-fisu_state alignedready w = last-setstate w inservice
last-fisu_state s w = refl

last-fisu_rx : (w : World) (h : SuHead) → Keeps w.link.lastfsnacked (fisu_rx w h)
unfolding fisu_rx
last-fisu_rx w h =
    if_cases (Keeps w.link.lastfsnacked) (eq_ℤ (fisu_check w h).link.lastsurxd (pos fisu))
      (λ _. last-fisu_check w h)
      (λ _. last-fisu_state (fisu_check w h).link.state _ ∙ last-fisu_check w h)

last-lssu_notaligned : (w : World) (n : ℕ) → Keeps w.link.lastfsnacked (lssu_notaligned w n)
unfolding lssu_notaligned choose_period
last-lssu_notaligned w n =
    if_cases (Keeps w.link.lastfsnacked) (not (n == sie) && not (n == sin) && not (n == sio))
      (λ _. last-setstate w notaligned) (λ _. last-setstate (choose_period w n) _)

last-periods :
    (w : World) (n : ℕ)
    → (rechoose_period (choose_period w n) n).link.lastfsnacked ≡ w.link.lastfsnacked
unfolding choose_period rechoose_period
last-periods w n = ground arith

last-lssu_state : (s : LinkState) (w : World) (n : ℕ) → Keeps w.link.lastfsnacked (lssu_state s w n)
unfolding lssu_state
last-lssu_state idle w n = last-lssu_notaligned w n
last-lssu_state notaligned w n = last-lssu_notaligned w n
last-lssu_state aligned w n =
    if_cases (Keeps w.link.lastfsnacked) (n == sios) (λ _. last-setstate w idle)
      (λ _. last-setstate (rechoose_period (choose_period w n) n) proving ∙ last-periods w n)
last-lssu_state proving w n =
    if_cases (Keeps w.link.lastfsnacked) (n == sios) (λ _. last-setstate w idle)
      (λ _.
        if_cases (Keeps w.link.lastfsnacked) (n == sio) (λ _. last-setstate w aligned) (λ _. refl))
last-lssu_state alignedready w n = last-setstate w idle
last-lssu_state inservice w n = last-setstate w idle
last-lssu_state alarm w n = refl

last-lssu_rx : (w : World) (n : ℕ) → Keeps w.link.lastfsnacked (lssu_rx w n)
unfolding lssu_rx
last-lssu_rx w n =
    if_cases (Keeps w.link.lastfsnacked) (eq_ℤ w.link.lastsurxd (pos n)) (λ _. refl)
      (λ _. last-lssu_state w.link.state _ n ∙ ground arith)

last-nack_check :
    (w : World) (h : SuHead) → (nack_check w h).link.lastfsnacked ≡ w.link.lastfsnacked
unfolding nack_check mtp2_retransmit
last-nack_check w h = ground arith

last-update_txbuf : (w : World) (b : ℕ) → (update_txbuf w b).link.lastfsnacked ≡ w.link.lastfsnacked
unfolding update_txbuf
last-update_txbuf w b = ground arith

last-dump :
    (w : World) (d : Bool) (u : Su) → (mtp2_dump w d u).link.lastfsnacked ≡ w.link.lastfsnacked
unfolding mtp2_dump
last-dump w d u = ground arith

last-take_acks : (w : World) (u : Su) → (take_acks w u).link.lastfsnacked ≡ w.link.lastfsnacked
unfolding take_acks
last-take_acks w u =
    last-nack_check (update_txbuf (mtp2_dump w false u) u.head.bsn) u.head
    ∙ last-update_txbuf (mtp2_dump w false u) u.head.bsn
    ∙ last-dump w false u

-- A message is accepted only as the successor of the last one, and is then the last one.
abbrev Continues : ℕ → SuHead → Verdict → Type 0
Continues n h (dropped w r) = w.link.lastfsnacked ≡ n
Continues n h (accepted w) = (h.fsn ≡ (n + 1) % 128) × (w.link.lastfsnacked ≡ h.fsn)

msu_check-Continues : (w : World) (h : SuHead) → Continues w.link.lastfsnacked h (msu_check w h)
unfolding msu_check mtp2_request_retransmission
msu_check-Continues w h = ground arith

msu_state-Continues :
    (s : LinkState) (w : World) (h : SuHead) → Continues w.link.lastfsnacked h (msu_state s w h)
unfolding msu_state
msu_state-Continues alignedready w h =
    subst (λ n. Continues n h (msu_check (mtp2_setstate w inservice).0 h))
      (last-setstate w inservice) (msu_check-Continues (mtp2_setstate w inservice).0 h)
msu_state-Continues inservice w h = msu_check-Continues w h
msu_state-Continues s w h = refl

-- What a received unit comes to, whatever level 3 does.
pub data Delivery (w : World) (u : Su) (len : ℕ) : Type 0 where
  kept :
      (w' : World) (r : ℤ)
      → ((mtp3 : World → List ℕ → ℕ → World × ℤ) → mtp2_receive mtp3 w u len ≡ (w', r))
      → w'.link.lastfsnacked ≡ w.link.lastfsnacked
      → Delivery w u len
  delivered :
      (w' : World)
      → ((mtp3 : World → List ℕ → ℕ → World × ℤ)
          → mtp2_receive mtp3 w u len ≡ mtp3 w' u.body (len - 2 - mtp2_size))
      → u.head.fsn ≡ (w.link.lastfsnacked + 1) % 128
      → w'.link.lastfsnacked ≡ u.head.fsn
      → Delivery w u len

of_verdict :
    (w : World) (u : Su) (len : ℕ) (v : Verdict)
    → ((mtp3 : World → List ℕ → ℕ → World × ℤ)
        → mtp2_receive mtp3 w u len ≡ finish mtp3 v u (len - 2))
    → Continues w.link.lastfsnacked u.head v
    → Delivery w u len
unfolding finish
of_verdict w u len (dropped w' r) e c = kept w' r e c
of_verdict w u len (accepted w') e c = delivered w' e c.0 c.1

by_li : (w : World) (u : Su) (len : ℕ) → ltb len (mtp2_size + 2) ≡ false → Delivery w u len
unfolding mtp2_receive by_length msu_rx
by_li w u len long = elim (Bool-cases (u.head.li == 0)) [
  | inl e ↦
      kept (fisu_rx (take_acks w u) u.head).0 (fisu_rx (take_acks w u) u.head).1 (λ m. rw (long, e))
        (last-fisu_rx (take_acks w u) u.head ∙ last-take_acks w u)
  | inr e ↦ elim (Bool-cases (u.head.li == 1 || u.head.li == 2)) [
    | inl f ↦
        kept (lssu_rx (take_acks w u) (first_byte u)).0 (lssu_rx (take_acks w u) (first_byte u)).1
          (λ m. rw (long, e, f)) (last-lssu_rx (take_acks w u) (first_byte u) ∙ last-take_acks w u)
    | inr f ↦
        of_verdict w u len (msu_state (take_acks w u).link.state (take_acks w u) u.head)
          (λ m. rw (long, e, f))
          (subst
            (λ n. Continues n u.head (msu_state (take_acks w u).link.state (take_acks w u) u.head))
            (last-take_acks w u)
            (msu_state-Continues (take_acks w u).link.state (take_acks w u) u.head))
  ]
]

-- A received unit either never reaches level 3 and leaves the number of the last accepted message
-- as it was, or it reaches level 3 exactly once; then its FSN is the successor modulo 128 of that
-- number, and becomes that number before level 3 is called.
pub mtp2_receive-Delivery : (w : World) (u : Su) (len : ℕ) → Delivery w u len
unfolding mtp2_receive
mtp2_receive-Delivery w u len = elim (Bool-cases (ltb len (mtp2_size + 2))) [
  | inl short ↦ kept w (pos 0) (λ m. rw short) refl
  | inr long ↦ by_li w u len long
]
