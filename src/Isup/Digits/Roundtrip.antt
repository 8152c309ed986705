-- ===== src/Isup/Digits/Roundtrip.antt =====
-- `isup_get_number` on what `isup_put_number` wrote.
use libss.Base.{
  ℕ, ◌+◌, ◌-◌, ◌*◌, ◌/◌, ◌%◌, ◌<◌, ◌≡◌, refl, sym, ap, ◌∙◌, inl, inr, true, false, List, [], ◌∷◌,
  arith, ◌==◌, if◌then◌else◌, Bool-cases, length, map,
}
use libss.Isup.Bytes.{Mem}
use libss.Isup.Digits.{
  char2digit, digit2char, shifted, digits_from, isup_get_number, put_from, isup_put_number,
}
use libss.Isup.Digits.Chars.{canonical, IsText, digit2char-mod, digit2char-char2digit}
use libss.Isup.Digits.Nibbles.{
  nibble, round, IsFree, round-IsFree, nibble-round_self, nibble-put_from,
}

digit2char-shifted :
    (m : Mem) (src i : ℕ) → digit2char (shifted m src i) ≡ digit2char (nibble m src i)
unfolding shifted
digit2char-shifted m src i = sym (digit2char-mod (m (src + i / 2) / (if i % 2 == 0 then 1 else 16)))

module _ (m : Mem) (dest i c : ℕ) (cs : List ℕ) (v : IsFree m dest i) (hc : c < 256) where
  d_lt : char2digit c % 16 < 16
  d_lt = omega arith

  abbrev next : Mem
  next = round m dest i (char2digit c % 16)

  next-IsFree : IsFree next dest (i + 1)
  next-IsFree = round-IsFree m dest i (char2digit c % 16) d_lt v

  -- The first character, read after the loop has ended.
  first_digit : digit2char (shifted (put_from next dest (i + 1) cs) dest i) ≡ canonical c
  first_digit =
      digit2char-shifted (put_from next dest (i + 1) cs) dest i
      ∙ ap digit2char (nibble-put_from next dest (i + 1) i cs next-IsFree (omega arith))
      ∙ ap digit2char (nibble-round_self m dest i (char2digit c % 16) d_lt v)
      ∙ digit2char-mod (char2digit c)
      ∙ digit2char-char2digit c hc

digits_from-put_from :
    (m : Mem) (dest i : ℕ) (cs : List ℕ)
    → IsFree m dest i
    → IsText cs
    → digits_from (put_from m dest i cs) dest i (length cs) ≡ map canonical cs
unfolding digits_from put_from round
digits_from-put_from m dest i [] v t = refl
digits_from-put_from m dest i (c ∷ cs) v t = cc (
  first_digit m dest i c cs v t.0,
  digits_from-put_from (round m dest i (char2digit c % 16)) dest (i + 1) cs
      (next-IsFree m dest i c cs v t.0) t.1,
)

-- From `dest` on there is nothing but zeros, as in a message that `calloc` gave.
abbrev pub IsZeroFrom : Mem → ℕ → Type 0
IsZeroFrom m dest = (j : ℕ) → m (dest + j) ≡ 0

zero-IsFree : (m : Mem) (dest : ℕ) → IsZeroFrom m dest → IsFree m dest 0
zero-IsFree m dest z = record { here = ground (arith, z 0); after = λ j h. z j }

-- Where the buffer holds zeros, a text of any length that is written as a number is read back
-- character by character in its canonical form: digits, A to D, `*` and `#` as they are, the letters
-- that stand for one of these as that, and every other character as 0.
pub isup_get_number-isup_put_number :
    (m : Mem) (dest : ℕ) (s : List ℕ)
    → IsZeroFrom m dest
    → IsText s
    → let (m', len, oddeven) = isup_put_number m dest s in
      isup_get_number m' dest len oddeven ≡ map canonical s
unfolding isup_put_number isup_get_number
isup_get_number-isup_put_number m dest s z t = elim (Bool-cases (length s % 2 == 0)) [
  | inl e ↦ rw (e, even_length e) (digits_from-put_from m dest 0 s (zero-IsFree m dest z) t)
  | inr e ↦ rw (e, odd_length e) (digits_from-put_from m dest 0 s (zero-IsFree m dest z) t)
]
  where
    even_length : (length s % 2 == 0) ≡ true → length s / 2 * 2 - 0 ≡ length s
    even_length e = ground arith

    odd_length : (length s % 2 == 0) ≡ false → (length s / 2 + 1) * 2 - 1 ≡ length s
    odd_length e = ground arith
