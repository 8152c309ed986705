-- ===== src/Mtp3/Changeover/Order.antt =====
-- The order in which a changeover collects.
use mathlib.Core.List.{append_assoc, append-nil}
use libss.Base.{
  ℕ, zero, suc, ◌-◌, ◌%◌, ◌^◌, ◌≤◌, ◌<◌, map, ltb, get_or, arith, ◌≡◌, refl, sym, ap, ◌∙◌, Bool,
  true, false, Option, none, some, List, [], ◌∷◌, ◌++◌, inl, inr, Bool-cases, if◌then◌else◌,
}
use libss.Mtp2.Types.{Msg}
use libss.Mtp2.Receive.Acks.{Consecutive, take, newer, cut_lem}
use libss.Mtp3.Label.{get_userpart}
use libss.Mtp3.Changeover.{is_for, goes, shrink, next_pos, move_from, Changing, collect}

-- The messages of a buffer that a move takes, as they arrive.
abbrev pub taken : ℕ → Bool → Option ℕ → List Msg → List Msg
taken t counted dpc [] = []
taken t counted dpc (m ∷ ms) =
    let rest = taken t counted dpc ms in if goes t dpc m then shrink counted m ∷ rest else rest

move_from-to :
    (t : ℕ) (c : Bool) (dpc : Option ℕ) (ms to : List Msg) (p : Option ℕ)
    → (move_from t c dpc ms (some to) p).to ≡ some (to ++ taken t c dpc ms)
unfolding move_from
move_from-to t c dpc [] to p = ap some (sym (append-nil to))
move_from-to t c dpc (m ∷ ms) to p = elim (Bool-cases (goes t dpc m)) [
  | inl e ↦ rw e (
      move_from-to t c dpc ms (to ++ shrink c m ∷ []) (next_pos p m ms)
      ∙ ap some (append_assoc to (shrink c m ∷ []) (taken t c dpc ms)))
  | inr e ↦ rw e (move_from-to t c dpc ms to p)
]

-- The user part in the service information octet, the first byte behind the header of level 2.
abbrev pub user_part_of : Msg → ℕ
user_part_of m = get_or m.su.body 0 0 % 16

abbrev pub shorter : Msg → Msg
shorter m = record m { size = m.size - 2 }

-- The messages with a user part above 3.
abbrev pub of_users : List Msg → List Msg
of_users [] = []
of_users (m ∷ ms) = if ltb 3 (user_part_of m) then m ∷ of_users ms else of_users ms

-- Every message has the 2 bytes of its check sum, and a size of 32 bits.
abbrev pub AreSized : List Msg → Type 0
AreSized [] = Unit {0}
AreSized (m ∷ ms) = (2 ≤ m.size) × (m.size < 2 ^ 32) × AreSized ms

abbrev pub collected : ℕ → ℕ → Changing → List Msg
collected n fsn l =
    map shorter (of_users (take (newer n fsn) l.co_tx_buf))
    ++ map shorter (of_users l.co_tx_q)
    ++ of_users l.co_buf

goes-user : (t : ℕ) (m : Msg) → goes t none m ≡ ltb 3 (user_part_of m)
unfolding goes is_for get_userpart
goes-user t m = ground arith

shrink-shorter : (m : Msg) → 2 ≤ m.size → m.size < 2 ^ 32 → shrink true m ≡ shorter m
unfolding shrink
shrink-shorter m h k = ap (λ s. record m { size = s }) (omega arith)

taken-shorter :
    (t : ℕ) (ms : List Msg) → AreSized ms → taken t true none ms ≡ map shorter (of_users ms)
taken-shorter t [] h = refl
taken-shorter t (m ∷ ms) h =
    rw (goes-user t m, shrink-shorter m (h.0) (h.1), taken-shorter t ms (h.2))
      (elim (Bool-cases (ltb 3 (user_part_of m))) [ inl e ↦ rw e refl | inr e ↦ rw e refl ])

taken-users : (t : ℕ) (ms : List Msg) → taken t false none ms ≡ of_users ms
unfolding shrink
taken-users t [] = refl
taken-users t (m ∷ ms) = rw (goes-user t m, taken-users t ms) refl

take-AreSized : (k : ℕ) (ms : List Msg) → AreSized ms → AreSized (take k ms)
take-AreSized zero ms h = tt
take-AreSized (suc k) [] h = tt
take-AreSized (suc k) (m ∷ ms) h = (h.0, h.1, take-AreSized k ms (h.2))

-- Over a buffer of sent messages with consecutive numbers, newest first, and messages in it and
-- in the queue that have at least 2 bytes: of the messages whose service information octet has a
-- user part above 3 in its low 4 bits, mtp3_changeover collects each once, those newer than the
-- last one that the other side has, the newest of them first, then those that waited to be sent
-- and those kept since, both in their order. Those that were sent or waited are 2 bytes shorter
-- than they were, as mtp2_msu made them longer by 2.
pub collect_lem :
    (t n fsn : ℕ) (l : Changing)
    → n < 128
    → fsn < 128
    → Consecutive n l.co_tx_buf
    → AreSized l.co_tx_buf
    → AreSized l.co_tx_q
    → (collect t fsn l).1 ≡ some (collected n fsn l)
unfolding collect
collect_lem t n fsn l hn hf c hs hq =
    rw
      (
        cut_lem n fsn l.co_tx_buf hn hf c,
        move_from-to t true none (take (newer n fsn) l.co_tx_buf) [] l.retransmit_pos,
        move_from-to t true none l.co_tx_q,
        move_from-to t false none l.co_buf,
        taken-shorter t (take (newer n fsn) l.co_tx_buf)
            (take-AreSized (newer n fsn) l.co_tx_buf hs),
        taken-shorter t l.co_tx_q hq,
        taken-users t l.co_buf,
      )
      refl
