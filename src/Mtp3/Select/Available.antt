-- ===== src/Mtp3/Select/Available.antt =====
-- When a link is available for a point code, and with which buffer.
use libss.Base.{
  ℕ, ◌≡◌, ◌≢◌, ◌⊎◌, inl, inr, refl, ◌∙◌, Bool, true, false, Option, none, some, List, [], ◌∷◌,
  Bool-cases, arith, if◌then◌else◌, ◌==◌, ◌&&◌, ◌||◌, not, sym,
}
use libss.Base.Int.{ℤ, pos, negsuc, is_nonneg}
use libss.Mtp3.Select.{
  Changeover, steady, initiated, in_progress, completed, changeback_initiated, changeback, Route,
  SigLink, Buffer, route_q, co_buf, cb_buf, is_completed, is_moving, usable, own_buffer, by_route,
  link_available,
}

-- In service under a neighbour that is up and not changed over; or while its messages are collected.
pub data IsUsable (l : SigLink) : Type 0 where
  in_service : l.linkstate ≡ 3 → l.adj_state ≡ 1 → l.changeover ≢ completed → IsUsable l
  changing_over : l.changeover ≡ in_progress → IsUsable l
  changing_back : l.changeover ≡ changeback_initiated → IsUsable l

-- The buffer of the link's own changeover.
pub data Own : Changeover → Option Buffer → Type 0 where
  not_begun : Own steady none
  over_begun : Own initiated (some co_buf)
  over : Own in_progress (some co_buf)
  is_over : Own completed none
  back_begun : Own changeback_initiated (some cb_buf)
  back : Own changeback (some cb_buf)

-- The first route for the point code, if there is one.
pub data FirstRoute (dpc : ℕ) : List Route → Option Route → Type 0 where
  no_route : FirstRoute dpc [] none
  here : (r : Route) (rs : List Route) → r.dpc ≡ dpc → FirstRoute dpc (r ∷ rs) (some r)
  behind :
      (r : Route) (rs : List Route) (o : Option Route)
      → r.dpc ≢ dpc
      → FirstRoute dpc rs o
      → FirstRoute dpc (r ∷ rs) o

-- By that route: T6 runs and its queue takes the messages; or it is allowed (2, 3); or neither.
pub data ByRoute (c : Changeover) : Option Route → Bool × Option Buffer → Type 0 where
  unrouted : (b : Option Buffer) → Own c b → ByRoute c none (true, b)
  rerouting : (r : Route) (n : ℕ) → r.t6 ≡ pos n → ByRoute c (some r) (true, some (route_q r.addr))
  allowed :
      (r : Route) (n : ℕ) (b : Option Buffer)
      → r.t6 ≡ negsuc n
      → (r.state ≡ 2) ⊎ (r.state ≡ 3)
      → Own c b
      → ByRoute c (some r) (true, b)
  prohibited :
      (r : Route) (n : ℕ)
      → r.t6 ≡ negsuc n
      → r.state ≢ 2
      → r.state ≢ 3
      → ByRoute c (some r) (false, none)

pub data Availability (l : SigLink) (dpc : ℕ) : Bool × Option Buffer → Type 0 where
  unusable : (IsUsable l → ⊥) → Availability l dpc (false, none)
  routed :
      (o : Option Route) (v : Bool × Option Buffer)
      → IsUsable l
      → FirstRoute dpc l.routes o
      → ByRoute l.changeover o v
      → Availability l dpc v

own_buffer-Own : (c : Changeover) → Own c (own_buffer c)
unfolding own_buffer
own_buffer-Own steady = not_begun
own_buffer-Own initiated = over_begun
own_buffer-Own in_progress = over
own_buffer-Own completed = is_over
own_buffer-Own changeback_initiated = back_begun
own_buffer-Own changeback = back

found-ByRoute :
    (c : Changeover) (r : Route) (t : ℤ)
    → r.t6 ≡ t
    → ByRoute c (some r) (
        if is_nonneg t
        then (true, some (route_q r.addr))
        else if r.state == 3 || r.state == 2
        then (true, own_buffer c)
        else (false, none))
found-ByRoute c r (pos n) e = rerouting r n e
found-ByRoute c r (negsuc n) e = elim (Bool-cases (r.state == 3 || r.state == 2)) [
  | inl b ↦ rw b (allowed r n (own_buffer c) e (ground arith) (own_buffer-Own c))
  | inr b ↦ rw b (prohibited r n e (λ q. ground arith) (λ q. ground arith))
]

by_route-ByRoute :
    (c : Changeover) (rs : List Route) (dpc : ℕ)
    → (o : Option Route) × FirstRoute dpc rs o × ByRoute c o (by_route c rs dpc)
unfolding by_route
by_route-ByRoute c [] dpc = (none, no_route, unrouted (own_buffer c) (own_buffer-Own c))
by_route-ByRoute c (r ∷ rs) dpc = elim (Bool-cases (r.dpc == dpc)) [
  | inl e ↦ rw e (some r, here r rs (ground arith), found-ByRoute c r r.t6 refl)
  | inr e ↦
      let ih = by_route-ByRoute c rs dpc in
      rw e (ih.0, behind r rs (ih.0) (λ q. ground arith) (ih.1), ih.2)
]

-- The condition of the code.
abbrev condition : ℕ → ℕ → Changeover → Bool
condition s a c = (s == 3 && a == 1 && not (is_completed c)) || is_moving c

served : (s a : ℕ) → ((s == 3 && a == 1 && true) || false) ≡ true → (s ≡ 3) × (a ≡ 1)
served s a h = (ground arith, ground arith)

unserved : (s a : ℕ) → ((s == 3 && a == 1 && true) || false) ≡ false → s ≡ 3 → a ≡ 1 → ⊥
unserved s a h p q = ground arith

at_rest :
    (l : SigLink) (c : Changeover)
    → l.changeover ≡ c
    → c ≢ completed
    → ((l.linkstate == 3 && l.adj_state == 1 && true) || false) ≡ true
    → IsUsable l
at_rest l c e n h =
    let (p, q) = served l.linkstate l.adj_state h in in_service p q (λ k. n (sym e ∙ k))

condition-IsUsable :
    (l : SigLink) (c : Changeover)
    → l.changeover ≡ c
    → condition l.linkstate l.adj_state c ≡ true
    → IsUsable l
unfolding is_completed is_moving
condition-IsUsable l steady e h = at_rest l steady e (λ q. grind arith) h
condition-IsUsable l initiated e h = at_rest l initiated e (λ q. grind arith) h
condition-IsUsable l in_progress e h = changing_over e
condition-IsUsable l completed e h = absurd (ground arith)
condition-IsUsable l changeback_initiated e h = changing_back e
condition-IsUsable l changeback e h = at_rest l changeback e (λ q. grind arith) h

or_true : (s a : ℕ) → ((s == 3 && a == 1 && true) || true) ≡ true
or_true s a = ground arith

IsUsable-condition :
    (l : SigLink) (c : Changeover)
    → l.changeover ≡ c
    → IsUsable l
    → condition l.linkstate l.adj_state c ≡ true
unfolding is_completed is_moving
IsUsable-condition l steady e (in_service p q n) = ground arith
IsUsable-condition l initiated e (in_service p q n) = ground arith
IsUsable-condition l in_progress e (in_service p q n) = ground arith
IsUsable-condition l completed e (in_service p q n) = absurd (n e)
IsUsable-condition l changeback_initiated e (in_service p q n) = ground arith
IsUsable-condition l changeback e (in_service p q n) = ground arith
IsUsable-condition l c e (changing_over p) = rw (sym e ∙ p) (or_true l.linkstate l.adj_state)
IsUsable-condition l c e (changing_back p) = rw (sym e ∙ p) (or_true l.linkstate l.adj_state)

pub link_available-Availability :
    (l : SigLink) (dpc : ℕ) → Availability l dpc (link_available l dpc)
unfolding link_available usable
link_available-Availability l dpc =
    elim (Bool-cases (condition l.linkstate l.adj_state l.changeover)) [
      | inl e ↦
          let (o, f, r) = by_route-ByRoute l.changeover l.routes dpc in
          rw e (routed o _ (condition-IsUsable l l.changeover refl e) f r)
      | inr e ↦
          rw e (unusable (λ u. absurd (apart (sym (IsUsable-condition l l.changeover refl u) ∙ e))))
    ]
  where
    apart : true ≢ false
    apart q = grind arith
