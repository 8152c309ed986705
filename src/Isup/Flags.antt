-- ===== src/Isup/Flags.antt =====
-- The bits of `got_sent_msg`, by their numbers in libss7.h.
use libss.Base.{
  ℕ, zero, suc, Bool, true, false, ◌&&◌, ◌||◌, not, List, [], ◌∷◌, ◌==◌, if◌then◌else◌,
}
use libss.Isup.Call.{Flags}

abbrev pub isup_sent_grs : ℕ
isup_sent_grs = 0

abbrev pub isup_sent_cgb : ℕ
isup_sent_cgb = 1

abbrev pub isup_sent_cgu : ℕ
isup_sent_cgu = 2

abbrev pub isup_sent_rsc : ℕ
isup_sent_rsc = 3

abbrev pub isup_sent_rel : ℕ
isup_sent_rel = 4

abbrev pub isup_sent_blo : ℕ
isup_sent_blo = 5

abbrev pub isup_sent_ubl : ℕ
isup_sent_ubl = 6

abbrev pub isup_sent_iam : ℕ
isup_sent_iam = 7

abbrev pub isup_sent_far : ℕ
isup_sent_far = 8

abbrev pub isup_got_ccr : ℕ
isup_got_ccr = 9

abbrev pub isup_got_iam : ℕ
isup_got_iam = 10

abbrev pub isup_got_acm : ℕ
isup_got_acm = 11

abbrev pub isup_got_con : ℕ
isup_got_con = 12

abbrev pub isup_got_anm : ℕ
isup_got_anm = 13

abbrev pub isup_sent_acm : ℕ
isup_sent_acm = 14

abbrev pub isup_got_cgb : ℕ
isup_got_cgb = 15

abbrev pub isup_got_cgu : ℕ
isup_got_cgu = 16

abbrev pub isup_sent_con : ℕ
isup_sent_con = 17

abbrev pub isup_sent_anm : ℕ
isup_sent_anm = 18

abbrev pub isup_sent_inr : ℕ
isup_sent_inr = 19

abbrev pub isup_sent_grs2 : ℕ
isup_sent_grs2 = 20

abbrev pub isup_pending_iam : ℕ
isup_pending_iam = 21

abbrev pub isup_call_connected : List ℕ
isup_call_connected =
    isup_got_acm ∷ isup_got_anm ∷ isup_got_con ∷ isup_sent_con ∷ isup_sent_acm ∷ isup_sent_anm ∷ []

abbrev pub isup_call_pending : List ℕ
isup_call_pending =
    isup_got_iam ∷ isup_sent_iam ∷ isup_pending_iam ∷ isup_got_ccr ∷ isup_sent_inr ∷ isup_sent_far
    ∷ []

-- `got_sent_msg & (…)`
abbrev pub has : List ℕ → Flags → Bool
has [] f = false
has (k ∷ ks) f = f k || has ks f

abbrev pub mem : ℕ → List ℕ → Bool
mem j [] = false
mem j (k ∷ ks) = j == k || mem j ks

-- `got_sent_msg |= …`
abbrev pub with_flag : ℕ → Flags → Flags
with_flag k f = λ j. if j == k then true else f j

-- `got_sent_msg &= ~(…)`
abbrev pub without : List ℕ → Flags → Flags
without ks f = λ j. if mem j ks then false else f j

-- Of the bits below `n`.
unfoldable pub clear_below : ℕ → Flags → Bool
clear_below zero f = true
clear_below (suc n) f = not (f n) && clear_below n f

-- `!got_sent_msg`
unfoldable pub is_clear : Flags → Bool
unfolding clear_below
is_clear = clear_below 22
