-- ===== src/Isup/Call.antt =====
-- struct isup_call of isup.h, as far as the parameters of a message reach it. The fields that share
-- a prefix are one record. A `char` array is the text before its NUL: one of ISUP_MAX_NUM bytes
-- holds at most 63 characters, and a longer text here is one that fills the array with no NUL.
use libss.Base.{
  ℕ, ◌<◌, ◌≡◌, Bool, true, false, Option, none, some, List, [], ◌∷◌, if◌then◌else◌, ltb, length,
  ◌==◌,
}
use libss.Base.Int.{ℤ}
use libss.Isup.Bytes.{Mem}
use libss.Isup.Digits.{isup_get_number, isup_put_number}

-- `num`, `nai`, `presentation_ind` and `screening_ind`.
pub record Number : Type 0 where
  pub num : List ℕ
  pub nai : ℕ
  pub presentation_ind : ℕ
  pub screening_ind : ℕ

pub record GenericAddress : Type 0 where
  pub number : List ℕ
  pub nai : ℕ
  pub pres_ind : ℕ
  pub num_plan : ℕ
  pub type : ℕ

pub record GenericDigits : Type 0 where
  pub number : List ℕ
  pub type : ℕ
  pub scheme : ℕ

pub record Lspi : Type 0 where
  pub type : ℕ
  pub scheme : ℕ
  pub context : ℕ
  pub ident : List ℕ

pub record Charge : Type 0 where
  pub number : List ℕ
  pub nai : ℕ
  pub num_plan : ℕ

-- `redirect_info` and the fields that begin with it.
pub record Redirection : Type 0 where
  pub info : ℕ
  pub ind : ℕ
  pub orig_reas : ℕ
  pub counter : ℕ
  pub reas : ℕ

-- `cause`, `causecode` and `causeloc`.
pub record Cause : Type 0 where
  pub cause : ℕ
  pub code : ℕ
  pub loc : ℕ

pub record CallRef : Type 0 where
  pub ident : ℕ
  pub pc : ℕ

-- Of the closed user group.
pub record Cug : Type 0 where
  pub indicator : ℕ
  pub interlock_ni : List ℕ
  pub interlock_code : ℕ

-- The fields that begin with `generic_name`. `text` is the whole array of ISUP_MAX_NAME bytes.
pub record Name : Type 0 where
  pub typeofname : ℕ
  pub avail : ℕ
  pub presentation : ℕ
  pub text : List ℕ

-- The fields that begin with `sent_grs`, `sent_cgb` and `sent_cgu`.
pub record Groups : Type 0 where
  pub grs_endcic : ℕ
  pub cgb_type : ℕ
  pub cgb_endcic : ℕ
  pub cgb_status : List ℕ
  pub cgu_type : ℕ
  pub cgu_endcic : ℕ
  pub cgu_status : List ℕ

-- `got_sent_msg`, each bit by its number.
abbrev pub Flags : Type 0
Flags = ℕ → Bool

-- The three flags of the continuity check.
pub record Cot : Type 0 where
  pub check_passed : ℕ
  pub check_required : ℕ
  pub performed_on_previous_cic : ℕ

pub record Call : Type 0 where
  pub called_party_num : List ℕ
  pub called_nai : ℕ
  pub calling : Number
  pub connected : Number
  pub orig_called : Number
  pub redirecting : Number
  pub charge : Charge
  pub name : Name
  pub cic : ℕ
  pub dpc : ℕ
  pub sls : ℕ
  pub got_sent_msg : Flags
  pub groups : Groups
  pub timer : List ℤ
  pub gen_add : GenericAddress
  pub gen_dig : GenericDigits
  pub jip_number : List ℕ
  pub lspi : Lspi
  pub redirection : Redirection
  pub redirect_counter : ℕ
  pub cause : Cause
  pub call_ref : CallRef
  pub cug : Cug
  pub cot : Cot
  pub calling_party_cat : ℕ
  pub oli_ani2 : ℤ
  pub range : ℕ
  pub status : List ℕ
  pub transcap : ℕ
  pub cicgroupsupervisiontype : ℕ
  pub event_info : ℕ
  pub called_party_status_ind : ℕ
  pub local_echocontrol_ind : ℕ
  pub echocontrol_ind : ℕ
  pub network_isdn_indicator : ℕ
  pub inr_ind : ℕ × ℕ
  pub inf_ind : ℕ × ℕ
  pub col_req : ℕ
  pub interworking_indicator : ℕ
  pub forward_indicator_pmbits : ℕ

-- What the messages and their parameters read of `struct ss7`.
pub record Ss7 : Type 0 where
  pub cause_location : ℕ
  pub pc : ℕ
  pub switchtype : ℕ
  pub flags : ℕ

-- What a transmit function comes to: the call, the buffer and the number returned. A receive
-- function gives the call and the number returned. `none` is an access outside of an array.
pub record Written : Type 0 where
  pub call : Call
  pub buf : Mem
  pub size : ℕ

abbrev pub isup_max_num : ℕ
isup_max_num = 64

-- A read or a write through a null-terminated text of `isup_max_num` bytes.
abbrev pub fits : List ℕ → Bool
fits s = ltb (length s) isup_max_num

-- The text before the first NUL.
unfoldable pub c_string : List ℕ → List ℕ
c_string [] = []
c_string (c ∷ cs) = if c == 0 then [] else c ∷ c_string cs

-- `s[0] == 0`
abbrev pub is_empty : List ℕ → Bool
is_empty [] = true
is_empty (c ∷ cs) = false

infixl 5 ◌>>=◌
abbrev pub ◌>>=◌ {ℓ κ} : {A : Type ℓ} {B : Type κ} → Option A → (A → Option B) → Option B
none >>= f = none
some a >>= f = f a

abbrev pub or_else {ℓ} : {A : Type ℓ} → Option A → Option A → Option A
or_else none o = o
or_else (some a) o = some a

-- isup_get_number(field, &parm[at], len, oddeven), into a field of `isup_max_num` bytes.
unfoldable pub get_text : Mem → ℕ → ℕ → ℕ → Option (List ℕ)
unfolding c_string
get_text m src len oddeven =
    let s = isup_get_number m src len oddeven in if fits s then some (c_string s) else none

-- isup_put_number(&parm[at], field, &len, &oddeven)
unfoldable pub put_text : Mem → ℕ → List ℕ → Option (Mem × ℕ × ℕ)
put_text m dest s = if fits s then some (isup_put_number m dest s) else none

-- A parameter that is left out, or one that is received as `c`.
abbrev pub Arrives : Option Written → Mem → (Mem → ℕ → Option (Call × ℕ)) → Option Call → Type 0
Arrives o m receive none = (w : Written) × (o ≡ some w) × (w.buf ≡ m) × (w.size ≡ 0)
Arrives o m receive (some c) =
    (w : Written) × (o ≡ some w) × (0 < w.size) × (receive w.buf w.size ≡ some (c, w.size))
