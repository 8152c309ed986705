-- ===== src/Isup/Setters/Sent.antt =====
-- A number, from the application that fills the call to the message.
use libss.Base.{
  ℕ, zero, suc, ◌+◌, ◌<◌, ◌≤◌, ◌≡◌, refl, Bool, true, false, none, some, List, [], ◌∷◌, ◌++◌, arith,
  ◌==◌, if◌then◌else◌, map, length, take, length-take, length-take-le, lt→ltb,
}
use libss.Mtp2.Transmit.{itu}
use libss.Isup.Bytes.{Mem}
use libss.Isup.Digits.Chars.{canonical, IsText}
use libss.Isup.Digits.Roundtrip.{IsZeroFrom}
use libss.Isup.Call.{Call, Ss7, is_empty, put_text, Arrives}
use libss.Isup.Numbers.{
  addr_not_available, called_party_num_receive, called_party_num_transmit,
  calling_party_num_transmit, write_number, original_called_num_transmit,
  redirecting_number_transmit,
}
use libss.Isup.Numbers.Back.{IsField}
use libss.Isup.Numbers.Called.{called_party_num-Arrives}
use libss.Isup.Setters.{
  dialled, isup_set_called, set_available, isup_set_calling, set_number,
  isup_set_redirecting_number, isup_set_orig_called_num,
}

take-IsText : (n : ℕ) (s : List ℕ) → IsText s → IsText (take n s)
take-IsText zero s v = tt
take-IsText (suc n) [] v = tt
take-IsText (suc n) (c ∷ cs) v = (v.0, take-IsText n cs (v.1))

append-IsText : (s : List ℕ) (c : ℕ) → c < 256 → IsText s → IsText (s ++ (c ∷ []))
append-IsText [] c h v = (h, tt)
append-IsText (x ∷ xs) c h v = (v.0, append-IsText xs c h (v.1))

marked-IsText : (b : Bool) (s : List ℕ) → IsText s → IsText (if b then s ++ (b'#' ∷ []) else s)
marked-IsText true s v = append-IsText s b'#' (omega arith) v
marked-IsText false s v = v

dialled-IsField : (ss7 : Ss7) (s : List ℕ) → IsText s → IsField (dialled ss7 s)
unfolding dialled
dialled-IsField ss7 s v = record {
  text = take-IsText 63 _ (marked-IsText (ss7.switchtype == itu) s v);
  short =
      lt→ltb _ 64
        (omega (arith, length-take-le 63 (if ss7.switchtype == itu then s ++ (b'#' ∷ []) else s)));
}

module _ (ss7 ss7' : Ss7) (c c' : Call) (called : List ℕ) (nai mt : ℕ) (m : Mem) (p len : ℕ) where
  -- Any number of at least one character that the application sets is sent, whatever its length, in
  -- a zeroed buffer: the called number that arrives is what snprintf kept of it and of its end mark,
  -- in canonical form, with the nature of address.
  pub isup_set_called-Arrives :
      IsZeroFrom m (p + 2)
      → IsText called
      → is_empty called ≡ false
      → nai < 128
      → Arrives
          (called_party_num_transmit ss7 (isup_set_called c (some called) nai ss7) mt m p len)
          m
          (λ b n. called_party_num_receive ss7' c' mt b p n)
          (some
            (record c' { called_party_num = map canonical (dialled ss7 called); called_nai = nai }))
  unfolding isup_set_called
  isup_set_called-Arrives z v e h = rw e (
      called_party_num-Arrives ss7 ss7'
        (record c { called_party_num = dialled ss7 called; called_nai = nai }) c' mt m p len z
        (dialled-IsField ss7 called v) h)

long-given : (s : List ℕ) → 64 ≤ length s → is_empty s ≡ false
long-given [] h = elim h [ ]
long-given (c ∷ cs) h = refl

taken-given : (s : List ℕ) → 64 ≤ length s → is_empty (take 64 s) ≡ false
taken-given [] h = elim h [ ]
taken-given (c ∷ cs) h = refl

long-put_text :
    (m : Mem) (dest : ℕ) (s : List ℕ) → 64 ≤ length s → put_text m dest (take 64 s) ≡ none
unfolding put_text
long-put_text m dest s h = rw (length-take 64 s h)

module _ (ss7 : Ss7) (c : Call) (s : List ℕ) (nai pres screen mt : ℕ) (m : Mem) (p len : ℕ) where
  -- For a text of 64 characters or more, strncpy leaves the array without a NUL, and sending the
  -- number reads on behind it: the calling number, where its address is not marked as not
  -- available, the redirecting one and the one originally called.
  pub isup_set_numbers-overrun :
      64 ≤ length s
      → (pres == addr_not_available) ≡ false
      → (calling_party_num_transmit ss7 (isup_set_calling c (some s) nai pres screen) mt m p len
          ≡ none)
        × (redirecting_number_transmit ss7
              (isup_set_redirecting_number c (some s) nai pres screen)
              mt
              m
              p
              len
            ≡ none)
        × (original_called_num_transmit ss7
              (isup_set_orig_called_num c (some s) nai pres screen)
              mt
              m
              p
              len
            ≡ none)
  unfolding isup_set_calling set_available set_number isup_set_redirecting_number
      isup_set_orig_called_num calling_party_num_transmit redirecting_number_transmit
      original_called_num_transmit write_number
  isup_set_numbers-overrun h e = (
    rw (long-given s h, e, taken-given s h, long-put_text m (p + 2) s h),
    rw (long-given s h, taken-given s h, long-put_text m (p + 2) s h),
    rw (long-given s h, taken-given s h, long-put_text m (p + 2) s h),
  )
