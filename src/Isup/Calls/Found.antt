-- ===== src/Isup/Calls/Found.antt =====
-- The call that `isup_find_call` finds.
use libss.Base.{
  ℕ, zero, suc, ◌≡◌, refl, ap, Bool, true, false, Option, none, some, List, [], ◌∷◌, ◌++◌, ==_iff,
  length, get_elem?, arith,
}
use libss.Isup.Call.{Call}
use libss.Isup.Calls.{init_isup_call, is_call, zeroed, first, position, found, isup_find_call}

-- Where the search ends.
data At (b : Bool) (o : Option ℕ) (i : ℕ) : Type 0 where
  here : b ≡ true → i ≡ 0 → At b o i
  there : (k : ℕ) → b ≡ false → o ≡ some k → i ≡ suc k → At b o i

first-At : (b : Bool) (o : Option ℕ) (i : ℕ) → first b o ≡ some i → At b o i
first-At true o i h = here refl (grind arith)
first-At false none i h = grind arith
first-At false (some k) i h = there k refl refl (grind arith)

first-none : (b : Bool) (o : Option ℕ) → first b o ≡ none → (b ≡ false) × (o ≡ none)
first-none true o h = grind arith
first-none false none h = (refl, refl)
first-none false (some k) h = grind arith

position-append :
    (opc cic i : ℕ) (cs : List Call) (d : Call)
    → position opc cic cs ≡ some i
    → position opc cic (cs ++ (d ∷ [])) ≡ some i
unfolding position
position-append opc cic i [] d h = grind arith
position-append opc cic i (c ∷ cs) d h =
    elim (first-At (is_call opc cic c) (position opc cic cs) i h) [
      | here e f ↦ rw (e, f)
      | there k e f g ↦ rw (e, position-append opc cic k cs d f, g)
    ]

position-new :
    (opc cic : ℕ) (cs : List Call) (d : Call)
    → position opc cic cs ≡ none
    → is_call opc cic d ≡ true
    → position opc cic (cs ++ (d ∷ [])) ≡ some (length cs)
unfolding position
position-new opc cic [] d h e = rw e
position-new opc cic (c ∷ cs) d h e =
    let (f, g) = first-none (is_call opc cic c) (position opc cic cs) h in
    rw (f, position-new opc cic cs d g e)

-- A call of the list, with that circuit and that point code.
abbrev pub IsCall : ℕ → ℕ → List Call → ℕ → Type 0
IsCall opc cic cs i = (c : Call) × (get_elem? cs i ≡ some c) × (is_call opc cic c ≡ true)

position-IsCall :
    (opc cic i : ℕ) (cs : List Call) → position opc cic cs ≡ some i → IsCall opc cic cs i
unfolding position
position-IsCall opc cic i [] h = grind arith
position-IsCall opc cic i (c ∷ cs) h =
    elim (first-At (is_call opc cic c) (position opc cic cs) i h) [
      | here e f ↦ rw f (c, refl, e)
      | there k e f g ↦ rw g (position-IsCall opc cic k cs f)
    ]

last-IsCall :
    (opc cic : ℕ) (cs : List Call) (d : Call)
    → is_call opc cic d ≡ true
    → IsCall opc cic (cs ++ (d ∷ [])) (length cs)
last-IsCall opc cic [] d e = (d, refl, e)
last-IsCall opc cic (c ∷ cs) d e = last-IsCall opc cic cs d e

-- Each call is the one that the search for its circuit and point code ends at.
pub AllFound : List Call → Type 0
AllFound cs = (i : ℕ) (c : Call) → get_elem? cs i ≡ some c → position c.dpc c.cic cs ≡ some i

get_elem?-append :
    (cs : List Call) (d : Call) (i : ℕ) (c : Call)
    → get_elem? cs i ≡ some c
    → get_elem? (cs ++ (d ∷ [])) i ≡ some c
get_elem?-append [] d i c h = grind arith
get_elem?-append (x ∷ cs) d zero c h = h
get_elem?-append (x ∷ cs) d (suc i) c h = get_elem?-append cs d i c h

-- A call of the longer list.
data Of (cs : List Call) (d : Call) (i : ℕ) (c : Call) : Type 0 where
  old : get_elem? cs i ≡ some c → Of cs d i c
  last : i ≡ length cs → c ≡ d → Of cs d i c

append-Of :
    (cs : List Call) (d : Call) (i : ℕ) (c : Call)
    → get_elem? (cs ++ (d ∷ [])) i ≡ some c
    → Of cs d i c
append-Of [] d zero c h = last refl (grind arith)
append-Of [] d (suc i) c h = grind arith
append-Of (x ∷ cs) d zero c h = old h
append-Of (x ∷ cs) d (suc i) c h = elim (append-Of cs d i c h) [
  | old e ↦ old e
  | last e f ↦ last (ap suc e) f
]

is_call_self : (c : Call) → is_call c.dpc c.cic c ≡ true
is_call_self c = rw ((==_iff c.cic c.cic).1 refl, (==_iff c.dpc c.dpc).1 refl)

append-AllFound :
    (cs : List Call) (d : Call)
    → position d.dpc d.cic cs ≡ none
    → AllFound cs
    → AllFound (cs ++ (d ∷ []))
unfolding AllFound
append-AllFound cs d n all i c h = elim (append-Of cs d i c h) [
  | old e ↦ position-append c.dpc c.cic i cs d (all i c e)
  | last e f ↦ rw (e, f) (position-new d.dpc d.cic cs d n (is_call_self d))
]

-- What a search for a circuit and a point code has come to.
pub record IsFound (opc cic : ℕ) (calls calls' : List Call) (i : ℕ) : Type 0 where
  pub call : IsCall opc cic calls' i
  pub again :
      (allocated : Bool) (sls : ℕ) → isup_find_call calls' allocated opc sls cic ≡ some (calls', i)
  pub kept : (j : ℕ) (c : Call) → get_elem? calls j ≡ some c → get_elem? calls' j ≡ some c
  pub all : AllFound calls → AllFound calls'

found-IsFound :
    (calls : List Call) (opc sls cic : ℕ) (o : Option ℕ)
    → position opc cic calls ≡ o
    → (calls' : List Call) × (i : ℕ) × (found calls true opc sls cic o ≡ some (calls', i))
      × IsFound opc cic calls calls' i
unfolding isup_find_call
found-IsFound calls opc sls cic (some i) e = (
  calls,
  i,
  refl,
  record {
    call = position-IsCall opc cic i calls e;
    again = λ a s. rw e;
    kept = λ j c h. h;
    all = λ h. h;
  },
)
found-IsFound calls opc sls cic none e =
    let d = record (init_isup_call zeroed) { cic = cic; dpc = opc; sls = sls } in
    (
      calls ++ (d ∷ []),
      length calls,
      refl,
      record {
        call = last-IsCall opc cic calls d (is_call_self d);
        again = λ a s. rw (position-new opc cic calls d e (is_call_self d));
        kept = get_elem?-append calls d;
        all = append-AllFound calls d e;
      },
    )

-- With memory for a call, a search always comes to one of that circuit and that point code; the same
-- search then finds the same one and adds nothing; the calls that were there keep their places; and
-- where each call was the one found for its own circuit and point code, that stays so.
pub isup_find_call-IsFound :
    (calls : List Call) (opc sls cic : ℕ)
    → (calls' : List Call) × (i : ℕ) × (isup_find_call calls true opc sls cic ≡ some (calls', i))
      × IsFound opc cic calls calls' i
unfolding isup_find_call
isup_find_call-IsFound calls opc sls cic =
    found-IsFound calls opc sls cic (position opc cic calls) refl
