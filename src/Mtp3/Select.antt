-- ===== src/Mtp3/Select.antt =====
-- The choice of a link for an outgoing message: `link_available` and `rl_to_link`. A link is what
-- the two functions read of it; the buffer that they set is named, with `none` for NULL.
pub mod Available
pub mod First
mod Tests
use libss.Base.{
  ℕ, ◌+◌, ◌/◌, ◌%◌, ◌^◌, Bool, true, false, ◌&&◌, ◌||◌, not, Option, none, some, List, [], ◌∷◌,
  if◌then◌else◌, ◌==◌, length, get_elem?,
}
use libss.Base.Int.{ℤ, is_nonneg}
use libss.Mtp3.Label.{RoutingLabel}

-- The values of `link->changeover`; `steady` is NO_CHANGEOVER.
pub data Changeover : Type 0 where
  steady initiated in_progress completed changeback_initiated changeback : Changeover

-- MTP2_LINKSTATE_UP, MTP3_UP, TFA and TFR_NON_ACTIVE
abbrev pub linkstate_up : ℕ
linkstate_up = 3

abbrev pub mtp3_up : ℕ
mtp3_up = 1

abbrev pub tfa : ℕ
tfa = 2

abbrev pub tfr_non_active : ℕ
tfr_non_active = 3

-- struct mtp3_route
pub record Route : Type 0 where
  pub addr : ℕ
  pub state : ℕ
  pub dpc : ℕ
  pub t6 : ℤ

-- `mtp2_linkstate[i]`, and of `links[i]` the changeover and its adjacent signalling point.
pub record SigLink : Type 0 where
  pub linkstate : ℕ
  pub adj_state : ℕ
  pub changeover : Changeover
  pub routes : List Route

-- `route->q` by the route's address, and the two buffers of the link itself.
pub data Buffer : Type 0 where
  route_q : ℕ → Buffer
  co_buf cb_buf : Buffer

is_completed : Changeover → Bool
is_completed completed = true
is_completed c = false

is_moving : Changeover → Bool
is_moving in_progress = true
is_moving changeback_initiated = true
is_moving c = false

unfoldable pub usable : SigLink → Bool
unfolding is_completed is_moving
usable l =
    (l.linkstate == linkstate_up && l.adj_state == mtp3_up && not (is_completed l.changeover))
    || is_moving l.changeover

-- The switch on the changeover.
unfoldable pub own_buffer : Changeover → Option Buffer
own_buffer in_progress = some co_buf
own_buffer initiated = some co_buf
own_buffer changeback_initiated = some cb_buf
own_buffer changeback = some cb_buf
own_buffer c = none

-- The loop over the routes, which ends at the first route for `dpc`.
unfoldable pub by_route : Changeover → List Route → ℕ → Bool × Option Buffer
unfolding own_buffer
by_route c [] dpc = (true, own_buffer c)
by_route c (r ∷ rs) dpc =
    let rest = by_route c rs dpc in
    if r.dpc == dpc
    then if is_nonneg r.t6
      then (true, some (route_q r.addr))
      else if r.state == tfr_non_active || r.state == tfa
      then (true, own_buffer c)
      else (false, none)
    else rest

unfoldable pub link_available : SigLink → ℕ → Bool × Option Buffer
unfolding usable by_route
link_available l dpc = if usable l then by_route l.changeover l.routes dpc else (false, none)

-- The loop of `rl_to_link` from link `i` on. A link that is not available sets the buffer to NULL.
unfoldable pub first_from : ℕ → List SigLink → ℕ → Option ℕ × Option Buffer
first_from i [] dpc = (none, none)
first_from i (l ∷ ls) dpc =
    let rest = first_from (i + 1) ls dpc in
    let (ok, b) = link_available l dpc in if ok then (some i, b) else rest

-- The link that `sls` selects.
unfoldable pub preferred : List SigLink → ℕ → RoutingLabel → ℕ
preferred links sls_shift rl = rl.sls / 2 ^ sls_shift % length links

-- The link `i`, or else the first one of the loop.
unfoldable pub or_first : ℕ → Option SigLink → List SigLink → ℕ → Option ℕ × Option Buffer
or_first i none links dpc = (none, none)
or_first i (some l) links dpc =
    let (ok, b) = link_available l dpc in if ok then (some i, b) else first_from 0 links dpc

-- There is a link; over none, the code would divide by zero.
unfoldable pub rl_to_link : List SigLink → ℕ → RoutingLabel → Option ℕ × Option Buffer
rl_to_link links sls_shift rl =
    let linkid = preferred links sls_shift rl in
    or_first linkid (get_elem? links linkid) links rl.dpc
