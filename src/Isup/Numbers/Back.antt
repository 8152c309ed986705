-- ===== src/Isup/Numbers/Back.antt =====
-- A number in a parameter, behind the bytes that come before it.
use Prim.Native.Nat.{bit_or}
use libss.Base.{
  ℕ, zero, suc, ◌+◌, ◌-◌, ◌*◌, ◌/◌, ◌%◌, ◌<◌, ◌≡◌, refl, ap, ◌∙◌, true, false, some, List, [], ◌∷◌,
  arith, ◌==◌, length, map, inl, ◌⊎◌,
}
use libss.Isup.Bytes.{Mem, store, or_top}
use libss.Isup.Digits.{digits_from, chars_from, shifted, isup_get_number, isup_put_number}
use libss.Isup.Digits.Chars.{canonical, IsText}
use libss.Isup.Digits.Roundtrip.{IsZeroFrom, isup_get_number-isup_put_number}
use libss.Isup.Call.{Number, c_string, fits, get_text, put_text}
use libss.Isup.Numbers.{top, read_number, write_head}

-- Reading from `src` on sees no byte before it.
digits_from-store :
    (m : Mem) (src i n j b : ℕ)
    → j < src
    → digits_from (store m j b) src i n ≡ digits_from m src i n
unfolding digits_from store shifted
digits_from-store m src i zero j b h = refl
digits_from-store m src i (suc n) j b h = ground (arith, digits_from-store m src (i + 1) n j b)

chars_from-store :
    (m : Mem) (src n j b : ℕ) → j < src → chars_from (store m j b) src n ≡ chars_from m src n
unfolding chars_from store
chars_from-store m src zero j b h = refl
chars_from-store m src (suc n) j b h = ground (arith, chars_from-store m (src + 1) n j b)

pub isup_get_number-store :
    (m : Mem) (src n odd j b : ℕ)
    → j < src
    → isup_get_number (store m j b) src n odd ≡ isup_get_number m src n odd
unfolding isup_get_number
isup_get_number-store m src n odd j b h =
    ground (arith, digits_from-store m src 0 (n * 2 - odd) j b, chars_from-store m src n j b)

length-canonical : (s : List ℕ) → length (map canonical s) ≡ length s
length-canonical [] = refl
length-canonical (c ∷ cs) = ap suc (length-canonical cs)

canonical_pos : (c : ℕ) → (canonical c == 0) ≡ false
canonical_pos c = ground arith

c_string-canonical : (s : List ℕ) → c_string (map canonical s) ≡ map canonical s
unfolding c_string
c_string-canonical [] = refl
c_string-canonical (c ∷ cs) =
    rw (canonical_pos c) (ap (λ r. canonical c ∷ r) (c_string-canonical cs))

-- A text that can be in a field, and is bytes.
pub record IsField (s : List ℕ) : Type 0 where
  pub text : IsText s
  pub short : fits s ≡ true

pub get_text-canonical :
    (m : Mem) (src n odd : ℕ) (s : List ℕ)
    → IsField s
    → isup_get_number m src n odd ≡ map canonical s
    → get_text m src n odd ≡ some (map canonical s)
unfolding get_text
get_text-canonical m src n odd s f e = rw (e, length-canonical s, f.short, c_string-canonical s)

abbrev pub put_buf : Mem → ℕ → List ℕ → Mem
put_buf m dest s = (isup_put_number m dest s).0

abbrev pub put_len : Mem → ℕ → List ℕ → ℕ
put_len m dest s = (isup_put_number m dest s).1

abbrev pub put_odd : Mem → ℕ → List ℕ → ℕ
put_odd m dest s = (isup_put_number m dest s).2

pub put_odd-lt : (m : Mem) (dest : ℕ) (s : List ℕ) → put_odd m dest s < 2
unfolding isup_put_number
put_odd-lt m dest s = ground arith

pub put_text-some :
    (m : Mem) (dest : ℕ) (s : List ℕ)
    → IsField s
    → put_text m dest s ≡ some (isup_put_number m dest s)
unfolding put_text
put_text-some m dest s f = rw (f.short)

-- Whatever two bytes before `dest` are written after the number.
pub get_text-put :
    (m : Mem) (dest : ℕ) (s : List ℕ) (i b j d : ℕ)
    → IsZeroFrom m dest
    → IsField s
    → i < dest
    → j < dest
    → get_text (store (store (put_buf m dest s) i b) j d) dest (put_len m dest s) (put_odd m dest s)
      ≡ some (map canonical s)
get_text-put m dest s i b j d z f hi hj =
    get_text-canonical (store (store (put_buf m dest s) i b) j d) dest (put_len m dest s)
      (put_odd m dest s) s f
      (isup_get_number-store (store (put_buf m dest s) i b) dest (put_len m dest s)
          (put_odd m dest s) j d hj
        ∙ isup_get_number-store (put_buf m dest s) dest (put_len m dest s) (put_odd m dest s) i b hi
        ∙ isup_get_number-isup_put_number m dest s z (f.text))

-- The indicators of a number are as wide as their fields in the message.
pub record IsNumber (n : Number) : Type 0 where
  pub field : IsField n.num
  pub nai : n.nai < 128
  pub presentation : n.presentation_ind < 4
  pub screening : n.screening_ind < 4

-- The number as the other side reads it.
abbrev pub canonical_number : Number → Number
canonical_number n = record n { num = map canonical n.num }

module _ (m : Mem) (p : ℕ) (n : Number) (odd plan : ℕ) (v : IsNumber n) (ho : odd < 2) where
  head_top : top (write_head m p n odd plan p) ≡ odd
  unfolding write_head store
  head_top = ground (arith, or_top odd (n.nai), v.nai)

  head_nai : write_head m p n odd plan p % 128 ≡ n.nai
  unfolding write_head store
  head_nai = ground (arith, or_top odd (n.nai), v.nai)

  head_presentation :
      plan ≡ 0 ⊎ plan ≡ 16 → write_head m p n odd plan (p + 1) / 4 % 4 ≡ n.presentation_ind
  unfolding write_head store
  head_presentation h = ground (arith, v.presentation, v.screening)

  head_screening : plan ≡ 0 ⊎ plan ≡ 16 → write_head m p n odd plan (p + 1) % 4 ≡ n.screening_ind
  unfolding write_head store
  head_screening h = ground (arith, v.presentation, v.screening)

get_text-head :
    (m : Mem) (p : ℕ) (n : Number) (plan : ℕ)
    → IsZeroFrom m (p + 2)
    → IsNumber n
    → get_text
        (write_head (put_buf m (p + 2) n.num) p n (put_odd m (p + 2) n.num) plan)
        (p + 2)
        (put_len m (p + 2) n.num)
        (put_odd m (p + 2) n.num)
      ≡ some (map canonical n.num)
unfolding write_head
get_text-head m p n plan z v =
    get_text-put m (p + 2) n.num p (bit_or (put_odd m (p + 2) n.num * 128) n.nai) (p + 1)
      (plan + n.presentation_ind % 4 * 4 + n.screening_ind % 4) z (v.field) (omega arith)
      (omega arith)

-- A number that `write_head` and `isup_put_number` wrote is read back.
pub read_number-write_head :
    (m : Mem) (p : ℕ) (n : Number) (plan : ℕ)
    → IsZeroFrom m (p + 2)
    → IsNumber n
    → plan ≡ 0 ⊎ plan ≡ 16
    → read_number
        (write_head (put_buf m (p + 2) n.num) p n (put_odd m (p + 2) n.num) plan)
        p
        (put_len m (p + 2) n.num + 2)
      ≡ some (canonical_number n)
unfolding read_number
read_number-write_head m p n plan z v h = rw (
  head_top m₀ p n odd plan v (put_odd-lt m (p + 2) n.num),
  two_more,
  number_text,
  head_nai m₀ p n odd plan v (put_odd-lt m (p + 2) n.num),
  head_presentation m₀ p n odd plan v (put_odd-lt m (p + 2) n.num) h,
  head_screening m₀ p n odd plan v (put_odd-lt m (p + 2) n.num) h,
)
  where
    m₀ : Mem
    m₀ = put_buf m (p + 2) n.num

    odd : ℕ
    odd = put_odd m (p + 2) n.num

    two_more : put_len m (p + 2) n.num + 2 - 2 ≡ put_len m (p + 2) n.num
    two_more = omega arith

    number_text :
        get_text (write_head m₀ p n odd plan) (p + 2) (put_len m (p + 2) n.num) odd
        ≡ some (map canonical n.num)
    number_text = get_text-head m p n plan z v

-- Without an address only the two bytes are read.
pub read_number-empty :
    (m : Mem) (p : ℕ) (n : Number)
    → IsNumber n
    → read_number (write_head m p n 0 0) p 2 ≡ some (record n { num = [] })
unfolding read_number get_text isup_get_number digits_from c_string
read_number-empty m p n v = rw (
  head_top m p n 0 0 v (omega arith),
  head_nai m p n 0 0 v (omega arith),
  head_presentation m p n 0 0 v (omega arith) (inl refl),
  head_screening m p n 0 0 v (omega arith) (inl refl),
)
