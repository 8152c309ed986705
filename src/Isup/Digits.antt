-- ===== src/Isup/Digits.antt =====
-- Telephone numbers: text in a call, two digits to a byte in a message. A character is its code;
-- a `char` array is the text before its NUL.
pub mod Chars
mod Nibbles
pub mod Roundtrip
use libss.Base.{
  ℕ, zero, suc, ◌+◌, ◌-◌, ◌*◌, ◌/◌, ◌%◌, Bool, ◌||◌, List, [], ◌∷◌, if◌then◌else◌, ltb, ◌==◌,
  length,
}
use libss.Isup.Bytes.{Mem, store, or_at}

unfoldable pub char2digit : ℕ → ℕ
char2digit c =
    if c == b'0'
    then 0x0
    else if c == b'1'
    then 0x1
    else if c == b'2'
    then 0x2
    else if c == b'3'
    then 0x3
    else if c == b'4'
    then 0x4
    else if c == b'5'
    then 0x5
    else if c == b'6'
    then 0x6
    else if c == b'7'
    then 0x7
    else if c == b'8'
    then 0x8
    else if c == b'9'
    then 0x9
    else if c == b'a' || c == b'A'
    then 0xa
    else if c == b'b' || c == b'B'
    then 0xb
    else if c == b'c' || c == b'C'
    then 0xc
    else if c == b'd' || c == b'D'
    then 0xd
    else if c == b'e' || c == b'E' || c == b'*'
    then 0xe
    else if c == b'f' || c == b'F' || c == b'#'
    then 0xf
    else 0x0

-- The switch on the low four bits.
unfoldable pub digit2char : ℕ → ℕ
digit2char digit =
    let d = digit % 16 in
    if d == 0x0
    then b'0'
    else if d == 0x1
    then b'1'
    else if d == 0x2
    then b'2'
    else if d == 0x3
    then b'3'
    else if d == 0x4
    then b'4'
    else if d == 0x5
    then b'5'
    else if d == 0x6
    then b'6'
    else if d == 0x7
    then b'7'
    else if d == 0x8
    then b'8'
    else if d == 0x9
    then b'9'
    else if d == 0xa
    then b'A'
    else if d == 0xb
    then b'B'
    else if d == 0xc
    then b'C'
    else if d == 0xd
    then b'D'
    else if d == 0xe
    then b'*'
    else if d == 0xf
    then b'#'
    else 0

-- `src[i/2] >> ((i % 2) ? 4 : 0)`, for the bytes from `src` on.
unfoldable pub shifted : Mem → ℕ → ℕ → ℕ
shifted m src i = m (src + i / 2) / (if i % 2 == 0 then 1 else 16)

-- The characters `i`, `i + 1`, …, `n` of them.
unfoldable pub digits_from : Mem → ℕ → ℕ → ℕ → List ℕ
unfolding shifted
digits_from m src i zero = []
digits_from m src i (suc n) = digit2char (shifted m src i) ∷ digits_from m src (i + 1) n

unfoldable pub chars_from : Mem → ℕ → ℕ → List ℕ
chars_from m src zero = []
chars_from m src (suc n) = m src ∷ chars_from m (src + 1) n

-- All that is written to `dest` before the NUL. `srclen` is not negative here: with a negative one
-- nothing is written, as with 0.
unfoldable pub isup_get_number : Mem → ℕ → ℕ → ℕ → List ℕ
unfolding digits_from chars_from
isup_get_number m src srclen oddeven =
    if ltb oddeven 2 then digits_from m src 0 (srclen * 2 - oddeven) else chars_from m src srclen

-- The loop of `isup_put_number` from character `i` on.
unfoldable pub put_from : Mem → ℕ → ℕ → List ℕ → Mem
put_from m dest i [] = m
put_from m dest i (c ∷ cs) =
    let nibble = char2digit c % 16 in
    let m' = or_at m (dest + i / 2) (if i % 2 == 0 then nibble else nibble * 16) in
    put_from m' dest (i + 1) cs

-- The buffer after it, `*len` and `*oddeven`.
unfoldable pub isup_put_number : Mem → ℕ → List ℕ → Mem × ℕ × ℕ
unfolding put_from
isup_put_number m dest src =
    let numlen = length src in
    let m' = put_from m dest 0 src in
    if numlen % 2 == 0 then (m', numlen / 2, 0) else (m', numlen / 2 + 1, 1)

-- The loop of `isup_put_generic`; `*len` is the length of the text.
unfoldable pub put_chars : Mem → ℕ → List ℕ → Mem
put_chars m dest [] = m
put_chars m dest (c ∷ cs) = put_chars (store m dest c) (dest + 1) cs
