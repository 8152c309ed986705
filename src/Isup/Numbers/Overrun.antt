-- ===== src/Isup/Numbers/Overrun.antt =====
-- How far `isup_get_number` writes, against the arrays of `struct isup_call`.
use libss.Base.{
  ℕ, zero, suc, ◌+◌, ◌-◌, ◌*◌, ◌<◌, ◌≤◌, ◌≡◌, ◌↔◌, refl, ap, Option, none, some, length, arith,
  ◌==◌, if◌then◌else◌,
}
use libss.Isup.Bytes.{Mem}
use libss.Isup.Digits.{digits_from, isup_get_number}
use libss.Isup.Call.{Number, Call, Ss7, get_text, isup_max_num, ◌>>=◌}
use libss.Isup.Numbers.{
  top, read_number, called_party_num_receive, calling_party_num_receive, connected_num_receive,
  redirecting_number_receive, original_called_num_receive,
}

length-digits_from : (m : Mem) (src i n : ℕ) → length (digits_from m src i n) ≡ n
unfolding digits_from
length-digits_from m src i zero = refl
length-digits_from m src i (suc n) = ap suc (length-digits_from m src (i + 1) n)

-- The terminator takes the last byte of the array.
get_text-none :
    (m : Mem) (src n odd : ℕ)
    → odd < 2
    → (get_text m src n odd ≡ none) ↔ (isup_max_num ≤ n * 2 - odd)
unfolding get_text isup_get_number
get_text-none m src n odd h = ground (arith, length-digits_from m src 0 (n * 2 - odd))

-- A pure step after a read fails where the read does.
bind_none :
    {A B : Type 0} (o : Option A) (f : A → B) → ((o >>= λ s. some (f s)) ≡ none) ↔ (o ≡ none)
bind_none none f = ground arith
bind_none (some s) f = ground arith

-- `len` is too long for an array of ISUP_MAX_NUM bytes.
abbrev pub IsTooLong : Mem → ℕ → ℕ → Type 0
IsTooLong m p len = isup_max_num + top (m p) ≤ (len - 2) * 2

text_overrun :
    (m : Mem) (p len : ℕ) → (get_text m (p + 2) (len - 2) (top (m p)) ≡ none) ↔ IsTooLong m p len
text_overrun m p len = (
  λ e. omega (arith, (get_text-none m (p + 2) (len - 2) (top (m p)) (omega arith)).0 e),
  λ h. (get_text-none m (p + 2) (len - 2) (top (m p)) (omega arith)).1 (omega arith),
)

module _ (ss7 : Ss7) (c : Call) (mt : ℕ) (m : Mem) (p len : ℕ) where
  called_overrun : (called_party_num_receive ss7 c mt m p len ≡ none) ↔ IsTooLong m p len
  unfolding called_party_num_receive
  called_overrun = rw same_odd (
    λ e. (text_overrun m p len).0 ((bind_none (get_text m (p + 2) (len - 2) (top (m p))) _).0 e),
    λ h. (bind_none (get_text m (p + 2) (len - 2) (top (m p))) _).1 ((text_overrun m p len).1 h),
  )
    where
      same_odd : (if top (m p) == 1 then 1 else 0) ≡ top (m p)
      same_odd = ground arith

  read_overrun : (read_number m p len ≡ none) ↔ IsTooLong m p len
  unfolding read_number
  read_overrun = (
    λ e. (text_overrun m p len).0 ((bind_none (get_text m (p + 2) (len - 2) (top (m p))) _).0 e),
    λ h. (bind_none (get_text m (p + 2) (len - 2) (top (m p))) _).1 ((text_overrun m p len).1 h),
  )

  of_number :
      (f : Number → Call × ℕ)
      → ((read_number m p len >>= λ n. some (f n)) ≡ none) ↔ IsTooLong m p len
  of_number f = (
    λ e. read_overrun.0 ((bind_none (read_number m p len) f).0 e),
    λ h. (bind_none (read_number m p len) f).1 (read_overrun.1 h),
  )

  -- Each of the five functions that read a number into an array of 64 bytes writes outside of it
  -- exactly for a parameter whose digits and terminator need more than that; the length in the
  -- message is checked by none of them.
  pub receive_overruns :
      ((called_party_num_receive ss7 c mt m p len ≡ none) ↔ IsTooLong m p len)
      × ((calling_party_num_receive ss7 c mt m p len ≡ none) ↔ IsTooLong m p len)
      × ((connected_num_receive ss7 c mt m p len ≡ none) ↔ IsTooLong m p len)
      × ((redirecting_number_receive ss7 c mt m p len ≡ none) ↔ IsTooLong m p len)
      × ((original_called_num_receive ss7 c mt m p len ≡ none) ↔ IsTooLong m p len)
  unfolding calling_party_num_receive connected_num_receive redirecting_number_receive
      original_called_num_receive
  receive_overruns = (called_overrun, of_number _, of_number _, of_number _, of_number _)
