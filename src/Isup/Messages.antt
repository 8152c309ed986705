-- ===== src/Isup/Messages.antt =====
-- The table of messages of isup.c, and the lists of their parameters by the numbers of isup.h.
use mathlib.Core.Option
use libss.Base.{ℕ, List, [], ◌∷◌, Option, none, some, if◌then◌else◌, ◌==◌, ◌&&◌}
use libss.Base.Int.{ℤ, pos, minus_one}
use libss.Mtp2.Transmit.{ansi}
use libss.Isup.Call.{or_else}

abbrev pub iam : ℕ
iam = 0x01

abbrev pub rlc : ℕ
rlc = 0x10

abbrev pub grs : ℕ
grs = 0x17

abbrev pub gra : ℕ
gra = 0x29

abbrev pub rel : ℕ
rel = 0x0c

abbrev pub iam_params : List ℕ
iam_params = 0x06 ∷ 0x07 ∷ 0x09 ∷ 0x02 ∷ 0x04 ∷ 0x0a ∷ 0x0b ∷ 0x13 ∷ 0x77 ∷ 0x28 ∷ 0x08 ∷ 0x1a ∷ []

abbrev pub ansi_iam_params : List ℕ
ansi_iam_params =
    0x06 ∷ 0x07 ∷ 0x09 ∷ 0x1d ∷ 0x04 ∷ 0x0a ∷ 0xeb ∷ 0xea ∷ 0xc0 ∷ 0xc1 ∷ 0xc7 ∷ 0xc4 ∷ 0xe4 ∷ 0x13
    ∷ 0x0b ∷ 0x77 ∷ 0x28 ∷ 0x08 ∷ 0x1a ∷ []

abbrev pub acm_params : List ℕ
acm_params = 0x11 ∷ []

abbrev pub frj_params : List ℕ
frj_params = 0x18 ∷ 0x01 ∷ []

abbrev pub faa_params : List ℕ
faa_params = 0x18 ∷ 0x01 ∷ []

abbrev pub far_params : List ℕ
far_params = 0x18 ∷ 0x01 ∷ []

abbrev pub anm_params : List ℕ
anm_params = 0x21 ∷ []

abbrev pub con_params : List ℕ
con_params = 0x11 ∷ 0x21 ∷ []

abbrev pub rel_params : List ℕ
rel_params = 0x12 ∷ []

abbrev pub greset_params : List ℕ
greset_params = 0x16 ∷ []

abbrev pub cot_params : List ℕ
cot_params = 0x10 ∷ []

abbrev pub cpg_params : List ℕ
cpg_params = 0x24 ∷ 0x21 ∷ []

abbrev pub cicgroup_params : List ℕ
cicgroup_params = 0x15 ∷ 0x16 ∷ []

abbrev pub cqr_params : List ℕ
cqr_params = 0x16 ∷ 0x26 ∷ []

abbrev pub sus_res_params : List ℕ
sus_res_params = 0x22 ∷ 0x01 ∷ []

abbrev pub inr_params : List ℕ
inr_params = 0x0e ∷ []

abbrev pub inf_params : List ℕ
inf_params = 0x0f ∷ 0x0a ∷ 0x09 ∷ []

abbrev pub sam_params : List ℕ
sam_params = 0x05 ∷ []

abbrev pub empty_params : List ℕ
empty_params = []

-- `struct message_data`
pub record MessageData : Type 0 where
  pub messagetype : ℕ
  pub mand_fixed_params : ℕ
  pub mand_var_params : ℕ
  pub opt_params : ℕ
  pub ansi_priority : ℤ
  pub param_list : List ℕ

abbrev of : ℕ → ℕ → ℕ → ℕ → ℤ → List ℕ → MessageData
of t f v o p l = record {
  messagetype = t;
  mand_fixed_params = f;
  mand_var_params = v;
  opt_params = o;
  ansi_priority = p;
  param_list = l;
}

unfoldable pub messages : List MessageData
messages =
    of 0x01 4 1 1 (pos 0) iam_params
    ∷ of 0x06 1 0 1 (pos 1) acm_params
    ∷ of 0x09 0 0 1 (pos 2) anm_params
    ∷ of 0x07 1 0 1 minus_one con_params
    ∷ of 0x0c 0 1 1 (pos 1) rel_params
    ∷ of 0x10 0 0 1 (pos 2) empty_params
    ∷ of 0x17 0 1 0 (pos 0) greset_params
    ∷ of 0x29 0 1 0 (pos 0) greset_params
    ∷ of 0x18 1 1 0 (pos 0) cicgroup_params
    ∷ of 0x19 1 1 0 (pos 0) cicgroup_params
    ∷ of 0x1a 1 1 0 (pos 0) cicgroup_params
    ∷ of 0x1b 1 1 0 (pos 0) cicgroup_params
    ∷ of 0x05 1 0 0 (pos 1) cot_params
    ∷ of 0x11 0 0 0 (pos 1) empty_params
    ∷ of 0x13 0 0 0 (pos 0) empty_params
    ∷ of 0x24 0 0 0 (pos 1) empty_params
    ∷ of 0x14 0 0 0 (pos 0) empty_params
    ∷ of 0x15 0 0 0 (pos 0) empty_params
    ∷ of 0x16 0 0 0 (pos 0) empty_params
    ∷ of 0x12 0 0 0 (pos 0) empty_params
    ∷ of 0xeb 0 0 0 (pos 0) empty_params
    ∷ of 0xec 0 0 0 (pos 0) empty_params
    ∷ of 0x2c 1 0 1 (pos 1) cpg_params
    ∷ of 0x2e 0 0 0 (pos 1) empty_params
    ∷ of 0x2a 0 1 0 (pos 0) greset_params
    ∷ of 0x2b 0 2 0 (pos 0) cqr_params
    ∷ of 0x21 1 0 1 minus_one frj_params
    ∷ of 0x20 1 0 1 minus_one faa_params
    ∷ of 0x1f 1 0 1 minus_one far_params
    ∷ of 0x2f 0 1 1 (pos 0) rel_params
    ∷ of 0x0d 1 0 1 (pos 1) sus_res_params
    ∷ of 0x0e 1 0 1 (pos 1) sus_res_params
    ∷ of 0x03 1 0 0 (pos 1) inr_params
    ∷ of 0x04 1 0 2 (pos 1) inf_params
    ∷ of 0x02 0 1 1 minus_one sam_params
    ∷ []

-- The search goes on to the end: the last entry of that type.
unfoldable pub find_message : List MessageData → ℕ → Option MessageData
find_message [] messagetype = none
find_message (x ∷ xs) messagetype =
    or_else (find_message xs messagetype) (if x.messagetype == messagetype then some x else none)

-- "The ANSI exception", as both sides make it. Only the receiving side also takes another list of
-- parameters.
unfoldable pub ansi_exception : MessageData → MessageData
ansi_exception x =
    if x.messagetype == iam
    then record x { mand_fixed_params = 3; mand_var_params = 2 }
    else if x.messagetype == rlc
    then record x { opt_params = 0 }
    else if x.messagetype == grs
    then record x { opt_params = 1 }
    else if x.messagetype == gra
    then record x { opt_params = 1 }
    else x

unfoldable pub message_of : ℕ → ℕ → Option MessageData
message_of switchtype messagetype =
    Option.map (λ x. if switchtype == ansi then ansi_exception x else x)
      (find_message messages messagetype)

-- What the receiving side goes by.
unfoldable pub received_params : ℕ → MessageData → List ℕ
received_params switchtype x =
    if switchtype == ansi && x.messagetype == iam then ansi_iam_params else x.param_list
