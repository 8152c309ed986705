-- ===== src/Isup/Digits/Chars.antt =====
-- The characters of telephone numbers, apart from their codes in a message.
use libss.Base.{
  ℕ, ◌-◌, ◌%◌, ◌<◌, ◌≡◌, refl, ◌&&◌, ◌||◌, List, [], ◌∷◌, arith, leb, ◌==◌, if◌then◌else◌,
}
use libss.Isup.Bytes.{all_below, by_table}
use libss.Isup.Digits.{char2digit, digit2char}

-- The character that stands for `c` when it is read back: letters a to d in upper case, `*` for e
-- and `#` for f, `0` for all that is no digit.
abbrev pub canonical : ℕ → ℕ
canonical c =
    if leb b'0' c && leb c b'9' || leb b'A' c && leb c b'D' || c == b'*' || c == b'#'
    then c
    else if leb b'a' c && leb c b'd'
    then c - 32
    else if c == b'e' || c == b'E'
    then b'*'
    else if c == b'f' || c == b'F'
    then b'#'
    else b'0'

pub char2digit-lt : (c : ℕ) → char2digit c < 16
unfolding char2digit
char2digit-lt c = ground arith

digits_table : (c : ℕ) → c < 256 → digit2char (char2digit c) ≡ canonical c
unfolding all_below char2digit digit2char
digits_table = by_table 256 (λ c. digit2char (char2digit c)) canonical refl

pub digit2char-mod : (d : ℕ) → digit2char (d % 16) ≡ digit2char d
unfolding digit2char
digit2char-mod d = rw mod_mod
  where
    mod_mod : d % 16 % 16 ≡ d % 16
    mod_mod = omega arith

-- Bytes of text.
abbrev pub IsText : List ℕ → Type 0
IsText [] = Unit {0}
IsText (c ∷ cs) = (c < 256) × IsText cs

pub digit2char-char2digit : (c : ℕ) → c < 256 → digit2char (char2digit c) ≡ canonical c
digit2char-char2digit c h = digits_table c h
