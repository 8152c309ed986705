-- ===== src/Isup/Status/Roundtrip.antt =====
-- Range and status, from the sending to the receiving call, and the bounds of `status`.
use libss.Base.{
  ℕ, zero, suc, ◌+◌, ◌/◌, ◌%◌, ◌≤◌, ◌<◌, ◌≡◌, ◌↔◌, refl, ap, ◌∙◌, inl, inr, false, not, none, some,
  List, [], ◌∷◌, arith, ltb, ◌==◌, bit, if◌then◌else◌, Bool-cases, length, get_or,
}
use libss.Isup.Bytes.{Mem, store}
use libss.Isup.Call.{Call, Ss7, Written}
use libss.Isup.Indicators.Roundtrip.{flag}
use libss.Isup.Status.{
  no_status, read_status, write_status, take, range_and_status_receive, range_and_status_transmit,
}
use libss.Isup.Status.Writing.{mark, mark_else, IsLow-start, status-write_status}
use libss.Isup.Status.Reading.{
  filled, read_status-some, read_status-none, filled_after, filled_within,
}

pub length-take : (n : ℕ) (ss : List ℕ) → n ≤ length ss → length (take n ss) ≡ n
length-take zero ss h = refl
length-take (suc n) [] h = absurd (omega arith)
length-take (suc n) (s ∷ ss) h = ap suc (length-take n ss (omega arith))

pub get_or-take : (n k : ℕ) (ss : List ℕ) → k < n → get_or (take n ss) k 0 ≡ get_or ss k 0
get_or-take zero k ss h = elim h [ ]
get_or-take (suc n) k [] h = refl
get_or-take (suc n) zero (s ∷ ss) h = refl
get_or-take (suc n) (suc k) (s ∷ ss) h = get_or-take n k ss (omega arith)

-- The loop writes behind the byte of the range only.
range-write_status : (m : Mem) (p i : ℕ) (ss : List ℕ) → write_status m p i ss p ≡ m p
unfolding write_status mark
range-write_status m p i [] = refl
range-write_status m p i (s ∷ ss) =
    range-write_status (mark m p i s) p (i + 1) ss ∙ mark_else m p i s p (omega arith)

-- What was received for the range that `c` sent, in the array `before`.
pub record IsReceived (c r : Call) (before : List ℕ) : Type 0 where
  pub range : r.range ≡ c.range
  pub within : (k : ℕ) → k ≤ c.range → get_or r.status k 0 ≡ flag (get_or c.status k 0)
  pub behind : (k : ℕ) → c.range < k → get_or r.status k 0 ≡ get_or before k 0

bit-not : (n : ℕ) → bit (not (n == 0)) ≡ flag n
bit-not n = ground arith

module _ (ss7 ss7' : Ss7) (c c' : Call) (mt : ℕ) (m : Mem) (p len : ℕ) where
  abbrev states : Mem
  states = write_status (store m p c.range) p 0 (take (c.range + 1) c.status)

  abbrev written : Written
  written = record {
    call = c;
    buf = states;
    size = (c.range + 1) / 8 + (if (c.range + 1) % 8 == 0 then 0 else 1) + 1;
  }

  transmitted :
      no_status mt ≡ false
      → c.range < length c.status
      → range_and_status_transmit ss7 c mt m p len ≡ some written
  unfolding range_and_status_transmit
  transmitted e h = rw (e, long) refl
    where
      long : ltb (length c.status) (c.range + 1) ≡ false
      long = ground arith

  range_byte : c.range < 256 → states p ≡ c.range
  unfolding store
  range_byte h =
      range-write_status (store m p c.range) p 0 (take (c.range + 1) c.status) ∙ ground arith

  abbrev received : Call
  received = record c' { range = c.range; status = filled states p 0 (c.range + 1) c'.status }

  receive_at :
      (b : Mem) (r n : ℕ) (s : List ℕ)
      → no_status mt ≡ false
      → b p ≡ r
      → read_status b p 0 (r + 1) c'.status ≡ some s
      → range_and_status_receive ss7' c' mt b p n ≡ some (record c' { range = r; status = s }, n)
  unfolding range_and_status_receive
  receive_at b r n s e f g = rw (e, f, g, f) refl

  receive_back :
      (n : ℕ)
      → no_status mt ≡ false
      → c.range < 256
      → c.range < length c'.status
      → range_and_status_receive ss7' c' mt states p n ≡ some (received, n)
  receive_back n e hr h =
      receive_at states c.range n (filled states p 0 (c.range + 1) c'.status) e (range_byte hr)
        (read_status-some states p 0 (c.range + 1) c'.status (omega arith))

  received_within :
      (k : ℕ)
      → k ≤ c.range
      → c.range < length c.status
      → c.range < length c'.status
      → get_or received.status k 0 ≡ flag (get_or c.status k 0)
  received_within k hk h h' =
      ap (λ j. get_or received.status j 0) at_k
      ∙ filled_within states p 0 (c.range + 1) k c'.status (omega arith) (omega arith)
      ∙ ap bit (
          status-write_status (store m p c.range) p 0 k (take (c.range + 1) c.status)
            (IsLow-start (store m p c.range) p 0 refl)
            (omega (arith, length-take (c.range + 1) c.status (omega arith))))
      ∙ ap (λ v. bit (not (v == 0))) (get_or-take (c.range + 1) k c.status (omega arith))
      ∙ bit-not (get_or c.status k 0)
    where
      at_k : k ≡ 0 + k
      at_k = omega arith

  -- For a message that carries states, with the range within the arrays of both sides: the message
  -- is sent and read, the range arrives, so does for each circuit in range whether its entry is 0,
  -- and no entry behind the range is changed.
  pub range_and_status-IsReceived :
      no_status mt ≡ false
      → c.range < 256
      → c.range < length c.status
      → c.range < length c'.status
      → (w : Written) × (range_and_status_transmit ss7 c mt m p len ≡ some w)
        × ((r : Call) × (range_and_status_receive ss7' c' mt w.buf p w.size ≡ some (r, w.size))
            × IsReceived c r c'.status)
  range_and_status-IsReceived e hr h h' = (
    written,
    transmitted e h,
    (
      received,
      receive_back written.size e hr h',
      record {
        range = refl;
        within = λ k hk. received_within k hk h h';
        behind = λ k hk. filled_after states p 0 (c.range + 1) k c'.status (omega arith);
      },
    ),
  )

-- On the array of 255 entries, reading a message writes outside of it exactly where the message
-- carries states and gives a range of 255 circuits behind the first.
pub range_and_status_receive-overrun :
    (ss7 : Ss7) (c : Call) (mt : ℕ) (m : Mem) (p len : ℕ)
    → length c.status ≡ 255
    → m p < 256
    → (range_and_status_receive ss7 c mt m p len ≡ none) ↔ ((no_status mt ≡ false) × (m p ≡ 255))
unfolding range_and_status_receive
range_and_status_receive-overrun ss7 c mt m p len size byte = elim (Bool-cases (no_status mt)) [
  | inl e ↦ rw e ((λ q. absurd (none_some q)), λ q. cc (q.0))
  | inr e ↦ elim (Bool-cases (ltb (m p) 255)) [
    | inl f ↦
        rw (e, read_status-some m p 0 (m p + 1) c.status (ground arith))
          ((λ q. absurd (none_some q)), λ q. absurd (ground arith))
    | inr f ↦
        rw (e, read_status-none m p 0 (m p + 1) c.status (omega arith) (ground arith))
          ((λ q. (refl, ground arith)), λ q. refl)
  ]
]
  where
    none_some : {x : Call × ℕ} → some x ≡ none → ⊥
    none_some q = cc
