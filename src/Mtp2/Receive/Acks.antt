-- ===== src/Mtp2/Receive/Acks.antt =====
-- The search of `update_txbuf` over a buffer with consecutive sequence numbers.
use libss.Base.{ℕ, zero, suc, ◌+◌, ◌-◌, ◌%◌, ◌<◌, ◌≡◌, refl, List, [], ◌∷◌, arith, ltb, length}
use libss.Mtp2.Types.{Msg}
use libss.Mtp2.Buffers.{cut}

-- Newest first, the messages carry the numbers `n`, `n - 1`, … modulo 128.
abbrev pub Consecutive : ℕ → List Msg → Type 0
Consecutive n [] = Unit {0}
Consecutive n (m ∷ ms) = (m.su.head.fsn ≡ n) × Consecutive ((n + 127) % 128) ms

abbrev pub take : ℕ → List Msg → List Msg
take zero ms = []
take (suc k) [] = []
take (suc k) (m ∷ ms) = m ∷ take k ms

-- The number of messages newer than `b`, when `n` is the newest.
abbrev pub newer : ℕ → ℕ → ℕ
newer n b = (n + 128 - b) % 128

cut_steps :
    (k n b : ℕ) (ms : List Msg)
    → n < 128
    → b < 128
    → newer n b ≡ k
    → Consecutive n ms
    → cut b ms ≡ (take k ms, ltb k (length ms))
unfolding cut
cut_steps zero n b [] hn hb e c = refl
cut_steps (suc k) n b [] hn hb e c = ground arith
cut_steps zero n b (m ∷ ms) hn hb e c = ground (arith, here)
  where
    here : n ≡ b
    here = omega arith
cut_steps (suc k) n b (m ∷ ms) hn hb e c =
    ground (arith, apart, cut_steps k ((n + 127) % 128) b ms (omega arith) hb (omega arith) c.1)
  where
    apart : n ≡ b → ⊥
    apart p = omega arith

-- Over a buffer of consecutive numbers from `n` down, an acknowledgement of `b` keeps exactly the
-- messages newer than `b`, in their order, and frees the others; the whole buffer stays where `b`
-- is older than all of it.
pub cut_lem :
    (n b : ℕ) (ms : List Msg)
    → n < 128
    → b < 128
    → Consecutive n ms
    → cut b ms ≡ (take (newer n b) ms, ltb (newer n b) (length ms))
cut_lem n b ms hn hb c = cut_steps (newer n b) n b ms hn hb refl c
