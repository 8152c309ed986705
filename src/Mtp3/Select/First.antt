-- ===== src/Mtp3/Select/First.antt =====
-- The choice of `rl_to_link`, by which links of the table are available.
use mathlib.Core.Path.{subst}
use libss.Base.{
  ℕ, zero, suc, ◌+◌, ◌<◌, ◌≡◌, Bool, ◌/◌, ◌%◌, ◌^◌, refl, sym, ap, ◌∙◌, true, false, Option, none,
  some, List, [], ◌∷◌, get_elem?, length, inl, inr, Bool-cases, arith, Option-cases,
  get_elem?-ne_none,
}
use libss.Mtp3.Label.{RoutingLabel}
use libss.Mtp3.Select.Available.{
  Availability, unusable, routed, unrouted, rerouting, allowed, prohibited,
  link_available-Availability,
}
use libss.Mtp3.Select.{SigLink, Buffer, link_available, first_from, preferred, or_first, rl_to_link}

-- No link below `k` is available.
abbrev pub NoneBelow : List SigLink → ℕ → ℕ → Type 0
NoneBelow links dpc k =
    (j : ℕ) (l : SigLink) → j < k → get_elem? links j ≡ some l → (link_available l dpc).0 ≡ false

pub data Found (i : ℕ) (links : List SigLink) (dpc : ℕ) (r : Option ℕ × Option Buffer)
    : Type 0 where
  first :
      (k : ℕ) (l : SigLink)
      → get_elem? links k ≡ some l
      → (link_available l dpc).0 ≡ true
      → NoneBelow links dpc k
      → r ≡ (some (i + k), (link_available l dpc).1)
      → Found i links dpc r
  no_link : NoneBelow links dpc (length links) → r ≡ (none, none) → Found i links dpc r

NoneBelow-zero : (links : List SigLink) (dpc : ℕ) → NoneBelow links dpc 0
NoneBelow-zero links dpc j l p q = ground arith

next_index : (i k : ℕ) → i + 1 + k ≡ i + suc k
next_index i k = omega arith

own_index : (i : ℕ) → i ≡ i + 0
own_index i = omega arith

NoneBelow-cons :
    (l : SigLink) (ls : List SigLink) (dpc k : ℕ)
    → (link_available l dpc).0 ≡ false
    → NoneBelow ls dpc k
    → NoneBelow (l ∷ ls) dpc (suc k)
NoneBelow-cons l ls dpc k e h zero x p q = cc
NoneBelow-cons l ls dpc k e h (suc j) x p q = h j x (omega arith) q

first_from-skip :
    (i : ℕ) (l : SigLink) (ls : List SigLink) (dpc : ℕ)
    → (link_available l dpc).0 ≡ false
    → first_from i (l ∷ ls) dpc ≡ first_from (i + 1) ls dpc
unfolding first_from
first_from-skip i l ls dpc e = rw e

first_from-take :
    (i : ℕ) (l : SigLink) (ls : List SigLink) (dpc : ℕ)
    → (link_available l dpc).0 ≡ true
    → first_from i (l ∷ ls) dpc ≡ (some i, (link_available l dpc).1)
unfolding first_from
first_from-take i l ls dpc e = rw e

Found-cons :
    (i : ℕ) (l : SigLink) (ls : List SigLink) (dpc : ℕ)
    → (link_available l dpc).0 ≡ false
    → Found (i + 1) ls dpc (first_from (i + 1) ls dpc)
    → Found i (l ∷ ls) dpc (first_from i (l ∷ ls) dpc)
Found-cons i l ls dpc e (first k x g a n r) = first (suc k) x g a (NoneBelow-cons l ls dpc k e n) (
    first_from-skip i l ls dpc e
    ∙ r
    ∙ ap (λ m. (some m, (link_available x dpc).1)) (next_index i k))
Found-cons i l ls dpc e (no_link n r) =
    no_link (NoneBelow-cons l ls dpc (length ls) e n) (first_from-skip i l ls dpc e ∙ r)

first_from-Found :
    (i : ℕ) (links : List SigLink) (dpc : ℕ) → Found i links dpc (first_from i links dpc)
unfolding first_from
first_from-Found i [] dpc = no_link (NoneBelow-zero [] dpc) refl
first_from-Found i (l ∷ ls) dpc = elim (Bool-cases (link_available l dpc).0) [
  | inl e ↦
      first 0 l refl e (NoneBelow-zero (l ∷ ls) dpc)
        (first_from-take i l ls dpc e ∙ ap (λ m. (some m, (link_available l dpc).1)) (own_index i))
  | inr e ↦ Found-cons i l ls dpc e (first_from-Found (i + 1) ls dpc)
]

-- Of the links below `k`, none is available.
abbrev pub NoneAvailable : List SigLink → ℕ → ℕ → Type 0
NoneAvailable links dpc k =
    (j : ℕ) (l : SigLink) → j < k → get_elem? links j ≡ some l → Availability l dpc (false, none)

pub data Chosen (links : List SigLink) (dpc : ℕ) : Option ℕ × Option Buffer → Type 0 where
  first_available :
      (k : ℕ) (l : SigLink) (b : Option Buffer)
      → get_elem? links k ≡ some l
      → Availability l dpc (true, b)
      → NoneAvailable links dpc k
      → Chosen links dpc (some k, b)
  none_available : NoneAvailable links dpc (length links) → Chosen links dpc (none, none)

-- What comes of the link with number `i`, if it is the one to try.
pub data Selects (links : List SigLink) (dpc i : ℕ) : Option ℕ × Option Buffer → Type 0 where
  by_sls :
      (l : SigLink) (b : Option Buffer)
      → get_elem? links i ≡ some l
      → Availability l dpc (true, b)
      → Selects links dpc i (some i, b)
  by_order :
      (l : SigLink) (r : Option ℕ × Option Buffer)
      → get_elem? links i ≡ some l
      → Availability l dpc (false, none)
      → Chosen links dpc r
      → Selects links dpc i r

yes-Availability :
    (l : SigLink) (dpc : ℕ)
    → (link_available l dpc).0 ≡ true
    → Availability l dpc (true, (link_available l dpc).1)
yes-Availability l dpc e =
    subst (λ b. Availability l dpc (b, (link_available l dpc).1)) e
      (link_available-Availability l dpc)

no_buffer :
    (l : SigLink) (dpc : ℕ) (v : Bool × Option Buffer)
    → Availability l dpc v
    → v.0 ≡ false
    → Availability l dpc (false, none)
no_buffer l dpc _ (unusable h) e = unusable h
no_buffer l dpc _ (routed o _ u f (unrouted b w)) e = absurd (grind arith)
no_buffer l dpc _ (routed o _ u f (rerouting r n t)) e = absurd (grind arith)
no_buffer l dpc _ (routed o _ u f (allowed r n b t s w)) e = absurd (grind arith)
no_buffer l dpc _ (routed o _ u f (prohibited r n t s s')) e =
    routed o _ u f (prohibited r n t s s')

no-Availability :
    (l : SigLink) (dpc : ℕ) → (link_available l dpc).0 ≡ false → Availability l dpc (false, none)
no-Availability l dpc e = no_buffer l dpc _ (link_available-Availability l dpc) e

NoneBelow-NoneAvailable :
    (links : List SigLink) (dpc k : ℕ) → NoneBelow links dpc k → NoneAvailable links dpc k
NoneBelow-NoneAvailable links dpc k h j l p q = no-Availability l dpc (h j l p q)

from_zero : (k : ℕ) → 0 + k ≡ k
from_zero k = omega arith

Found-Chosen :
    (links : List SigLink) (dpc : ℕ) (r : Option ℕ × Option Buffer)
    → Found 0 links dpc r
    → Chosen links dpc r
Found-Chosen links dpc r (first k l g a n e) =
    subst (Chosen links dpc) (sym (e ∙ ap (λ m. (some m, (link_available l dpc).1)) (from_zero k)))
      (first_available k l _ g (yes-Availability l dpc a) (NoneBelow-NoneAvailable links dpc k n))
Found-Chosen links dpc r (no_link n e) =
    subst (Chosen links dpc) (sym e)
      (none_available (NoneBelow-NoneAvailable links dpc (length links) n))

preferred-lt :
    (links : List SigLink) (sls_shift : ℕ) (rl : RoutingLabel)
    → 0 < length links
    → preferred links sls_shift rl < length links
unfolding preferred
preferred-lt links sls_shift rl h = omega arith

or_first-Selects :
    (i : ℕ) (l : SigLink) (links : List SigLink) (dpc : ℕ)
    → get_elem? links i ≡ some l
    → Selects links dpc i (or_first i (some l) links dpc)
unfolding or_first
or_first-Selects i l links dpc g = elim (Bool-cases (link_available l dpc).0) [
  | inl f ↦ rw f (by_sls l _ g (yes-Availability l dpc f))
  | inr f ↦ rw f (
      by_order l _ g (no-Availability l dpc f)
        (Found-Chosen links dpc _ (first_from-Found 0 links dpc)))
]

-- With at least one link, rl_to_link tries the link with the number that the SLS gives, shifted
-- right by sls_shift, modulo the number of links: it gives that link and its buffer where it is
-- available. Otherwise it gives the first available link of the table and its buffer, and neither
-- exactly where no link is available. A link is available where it is usable (in service under a
-- neighbour that is up and not changed over, or in one of the two states of a changeover that
-- collect messages) and its first route to the point code, if it has one, is allowed or has T6
-- running; the buffer is that of the route where T6 runs, and otherwise that of the changeover.
pub rl_to_link-Selects :
    (links : List SigLink) (sls_shift : ℕ) (rl : RoutingLabel)
    → 0 < length links
    → Selects links rl.dpc (rl.sls / 2 ^ sls_shift % length links) (rl_to_link links sls_shift rl)
unfolding rl_to_link preferred
rl_to_link-Selects links sls_shift rl h =
    elim (Option-cases (get_elem? links (rl.sls / 2 ^ sls_shift % length links))) [
      | inl e ↦
          elim (get_elem?-ne_none links (rl.sls / 2 ^ sls_shift % length links)
            (preferred-lt links sls_shift rl h) e) [ ]
      | inr (l, e) ↦ rw e (or_first-Selects _ l links rl.dpc e)
    ]
