-- ===== src/Isup/Setters.antt =====
-- The functions by which the application fills a call. A `char *` is none for NULL, and otherwise the
-- text that it points to. strncpy leaves an array full, with no NUL, where the text is as long.
pub mod Sent
use libss.Base.{
  ℕ, ◌%◌, ◌-◌, Bool, true, false, ◌||◌, not, Option, none, some, List, [], ◌∷◌, ◌++◌, ◌==◌,
  if◌then◌else◌, length, replicate, take,
}
use libss.Base.Int.{ℤ}
use libss.Mtp2.Transmit.{itu}
use libss.Isup.Call.{
  Number, GenericAddress, GenericDigits, Lspi, Charge, Redirection, Name, CallRef, Cug, Call, Ss7,
  isup_max_num, is_empty,
}
use libss.Isup.Numbers.{addr_not_available}
use libss.Isup.Plain.{isup_max_name}

-- `s && s[0]`
abbrev pub given : Option (List ℕ) → Bool
given none = false
given (some s) = not (is_empty s)

-- strncpy into a field of ISUP_MAX_NUM bytes.
abbrev pub copied : Option (List ℕ) → List ℕ
copied none = []
copied (some s) = take isup_max_num s

unfoldable pub isup_set_call_dpc : Call → ℕ → Call
isup_set_call_dpc c dpc = record c { dpc = dpc }

-- What snprintf keeps of the number with its end mark, which is for ITU networks alone.
unfoldable pub dialled : Ss7 → List ℕ → List ℕ
dialled ss7 called =
    take (isup_max_num - 1) (if ss7.switchtype == itu then called ++ (b'#' ∷ []) else called)

unfoldable pub isup_set_called : Call → Option (List ℕ) → ℕ → Ss7 → Call
isup_set_called c none called_nai ss7 = c
isup_set_called c (some called) called_nai ss7 =
    if is_empty called
    then c
    else record c { called_party_num = dialled ss7 called; called_nai = called_nai }

unfoldable pub isup_set_oli : Call → ℤ → Call
isup_set_oli c oli_ani2 = record c { oli_ani2 = oli_ani2 }

unfoldable pub isup_set_tmr : Call → ℕ → Call
isup_set_tmr c tmr = record c { transcap = tmr }

-- The number, where there is one or its address is marked as not available.
unfoldable pub set_available : Number → Option (List ℕ) → ℕ → ℕ → ℕ → Number
set_available n s nai presentation_ind screening_ind =
    if given s || presentation_ind == addr_not_available
    then record {
      num = copied s;
      nai = nai;
      presentation_ind = presentation_ind;
      screening_ind = screening_ind;
    }
    else n

unfoldable pub isup_set_calling : Call → Option (List ℕ) → ℕ → ℕ → ℕ → Call
isup_set_calling c calling nai presentation_ind screening_ind = record c {
  calling = set_available c.calling calling nai presentation_ind screening_ind;
}

unfoldable pub isup_set_connected : Call → Option (List ℕ) → ℕ → ℕ → ℕ → Call
isup_set_connected c connected nai presentation_ind screening_ind = record c {
  connected = set_available c.connected connected nai presentation_ind screening_ind;
}

unfoldable pub set_number : Number → Option (List ℕ) → ℕ → ℕ → ℕ → Number
set_number n s nai presentation_ind screening_ind =
    if given s
    then record {
      num = copied s;
      nai = nai;
      presentation_ind = presentation_ind;
      screening_ind = screening_ind;
    }
    else n

unfoldable pub isup_set_redirecting_number : Call → Option (List ℕ) → ℕ → ℕ → ℕ → Call
isup_set_redirecting_number c s nai presentation_ind screening_ind = record c {
  redirecting = set_number c.redirecting s nai presentation_ind screening_ind;
}

unfoldable pub isup_set_redirection_info : Call → ℕ → ℕ → ℕ → ℕ → Call
isup_set_redirection_info c ind orig_reas counter reas = record c {
  redirection = record {
    info = 1;
    ind = ind;
    orig_reas = orig_reas;
    counter = counter;
    reas = reas;
  };
}

unfoldable pub isup_set_redirect_counter : Call → ℕ → Call
isup_set_redirect_counter c redirect_counter = record c { redirect_counter = redirect_counter }

unfoldable pub isup_set_orig_called_num : Call → Option (List ℕ) → ℕ → ℕ → ℕ → Call
isup_set_orig_called_num c s nai presentation_ind screening_ind = record c {
  orig_called = set_number c.orig_called s nai presentation_ind screening_ind;
}

unfoldable pub isup_set_col_req : Call → Call
isup_set_col_req c = record c { col_req = 1 }

-- The array has five bytes.
unfoldable pub isup_set_cug : Call → ℕ → List ℕ → ℕ → Call
isup_set_cug c indicator interlock_ni interlock_code = record c {
  cug = record {
    indicator = indicator;
    interlock_ni = take 5 interlock_ni;
    interlock_code = interlock_code;
  };
}

unfoldable pub isup_set_interworking_indicator : Call → ℕ → Call
isup_set_interworking_indicator c ind = record c { interworking_indicator = ind }

unfoldable pub isup_set_forward_indicator_pmbits : Call → ℕ → Call
isup_set_forward_indicator_pmbits c pmbits = record c { forward_indicator_pmbits = pmbits }

unfoldable pub isup_set_echocontrol : Call → ℕ → Call
isup_set_echocontrol c ec = record c { local_echocontrol_ind = ec }

unfoldable pub isup_set_charge : Call → Option (List ℕ) → ℕ → ℕ → Call
isup_set_charge c charge nai num_plan =
    if given charge
    then record c { charge = record { number = copied charge; nai = nai; num_plan = num_plan } }
    else c

unfoldable pub isup_set_gen_address : Call → Option (List ℕ) → ℕ → ℕ → ℕ → ℕ → Call
isup_set_gen_address c number nai pres_ind num_plan type =
    let address : GenericAddress = record {
      number = copied number;
      nai = nai;
      pres_ind = pres_ind;
      num_plan = num_plan;
      type = type;
    } in
    if given number then record c { gen_add = address } else c

unfoldable pub isup_set_gen_digits : Call → Option (List ℕ) → ℕ → ℕ → Call
isup_set_gen_digits c number type scheme =
    if given number
    then record c { gen_dig = record { number = copied number; type = type; scheme = scheme } }
    else c

-- The whole array: strncpy fills it up with zeros, and the last byte is set to 0.
abbrev pub name_array : List ℕ → List ℕ
name_array s =
    let kept = take (isup_max_name - 1) s in kept ++ replicate (isup_max_name - length kept) 0

unfoldable pub isup_set_generic_name : Call → Option (List ℕ) → ℕ → ℕ → ℕ → Call
isup_set_generic_name c none typeofname availability presentation = c
isup_set_generic_name c (some s) typeofname availability presentation =
    let name : Name = record {
      typeofname = typeofname % 256;
      avail = availability % 256;
      presentation = presentation % 256;
      text = name_array s;
    } in
    if is_empty s then c else record c { name = name }

unfoldable pub isup_set_jip_digits : Call → Option (List ℕ) → Call
isup_set_jip_digits c jip_number =
    if given jip_number then record c { jip_number = copied jip_number } else c

unfoldable pub isup_set_lspi : Call → Option (List ℕ) → ℕ → ℕ → ℕ → Call
isup_set_lspi c ident type scheme context =
    let lspi : Lspi = record {
      type = type;
      scheme = scheme;
      context = context;
      ident = copied ident;
    } in
    if given ident then record c { lspi = lspi } else c

unfoldable pub isup_set_callref : Call → ℕ → ℕ → Call
isup_set_callref c ident pc = record c { call_ref = record { ident = ident; pc = pc } }

unfoldable pub isup_set_calling_party_category : Call → ℕ → Call
isup_set_calling_party_category c category = record c { calling_party_cat = category % 256 }
