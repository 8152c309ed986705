-- ===== src/Isup/Calls.antt =====
-- The calls of a switch, in the order of their list. A call is referred to by its position in place of
-- its address. `allocated` says whether calloc gave memory.
pub mod Found
use libss.Base.{
  ℕ, zero, suc, ◌+◌, ◌%◌, ◌^◌, Bool, true, false, ◌&&◌, Option, none, some, List, [], ◌∷◌, ◌++◌,
  ◌==◌, if◌then◌else◌, length, replicate,
}
use mathlib.Core.Option
use libss.Base.Int.{pos, minus_one}
use libss.Mtp2.Transmit.{ansi}
use libss.Mtp3.Label.{RoutingLabel, ansi_sls_next}
use libss.Isup.Call.{Number, Charge, Name, GenericAddress, GenericDigits, Lspi, Call}
use libss.Isup.Flags.{isup_pending_iam, with_flag}
use libss.Isup.Plain.{isup_max_name}

-- What the functions below change of `struct ss7`.
pub record Calls : Type 0 where
  pub calls : List Call
  pub sls : ℕ

abbrev no_number : Number
no_number = record { num = []; nai = 0; presentation_ind = 0; screening_ind = 0 }

-- What calloc gives.
abbrev pub zeroed : Call
zeroed = record {
  called_party_num = [];
  called_nai = 0;
  calling = no_number;
  connected = no_number;
  orig_called = no_number;
  redirecting = no_number;
  charge = record { number = []; nai = 0; num_plan = 0 };
  name = record { typeofname = 0; avail = 0; presentation = 0; text = replicate isup_max_name 0 };
  cic = 0;
  dpc = 0;
  sls = 0;
  got_sent_msg = λ k. false;
  groups = record {
    grs_endcic = 0;
    cgb_type = 0;
    cgb_endcic = 0;
    cgb_status = replicate 255 0;
    cgu_type = 0;
    cgu_endcic = 0;
    cgu_status = replicate 255 0;
  };
  timer = replicate 64 (pos 0);
  gen_add = record { number = []; nai = 0; pres_ind = 0; num_plan = 0; type = 0 };
  gen_dig = record { number = []; type = 0; scheme = 0 };
  jip_number = [];
  lspi = record { type = 0; scheme = 0; context = 0; ident = [] };
  redirection = record { info = 0; ind = 0; orig_reas = 0; counter = 0; reas = 0 };
  redirect_counter = 0;
  cause = record { cause = 0; code = 0; loc = 0 };
  call_ref = record { ident = 0; pc = 0 };
  cug = record { indicator = 0; interlock_ni = []; interlock_code = 0 };
  cot = record { check_passed = 0; check_required = 0; performed_on_previous_cic = 0 };
  calling_party_cat = 0;
  oli_ani2 = pos 0;
  range = 0;
  status = replicate 255 0;
  transcap = 0;
  cicgroupsupervisiontype = 0;
  event_info = 0;
  called_party_status_ind = 0;
  local_echocontrol_ind = 0;
  echocontrol_ind = 0;
  network_isdn_indicator = 0;
  inr_ind = (0, 0);
  inf_ind = (0, 0);
  col_req = 0;
  interworking_indicator = 0;
  forward_indicator_pmbits = 0;
}

unfoldable pub init_isup_call : Call → Call
init_isup_call c = record c {
  timer = replicate 64 minus_one;
  oli_ani2 = minus_one;
  range = 0;
  got_sent_msg = λ k. false;
  calling_party_cat = 0x0a;
}

-- The call, and `ss7->sls` after it.
unfoldable pub isup_init_call : ℕ → ℕ → Call → ℕ → ℕ → Call × ℕ
isup_init_call switchtype sls c cic dpc =
    if switchtype == ansi
    then (record c { cic = cic; dpc = dpc; sls = (ansi_sls_next sls).1 }, (ansi_sls_next sls).0)
    else (record c { cic = cic; dpc = dpc; sls = cic % 16 }, sls)

-- __isup_new_call, which puts the call at the end of the list.
unfoldable pub new_call : Bool → Option Call
new_call allocated = if allocated then some (init_isup_call zeroed) else none

-- The position is that of the new call.
unfoldable pub isup_new_call : ℕ → Calls → Bool → ℕ → ℕ → Bool → Calls × Option ℕ
isup_new_call switchtype s allocated cic dpc outgoing = elim (new_call allocated) [
  | none ↦ (s, none)
  | some new ↦
      let (c, sls) = isup_init_call switchtype s.sls new cic dpc in
      let c' =
        if outgoing
        then record c { got_sent_msg = with_flag isup_pending_iam c.got_sent_msg }
        else c in
      (record { calls = s.calls ++ (c' ∷ []); sls = sls }, some (length s.calls))
]

abbrev pub is_call : ℕ → ℕ → Call → Bool
is_call opc cic c = c.cic == cic && c.dpc == opc

abbrev pub first : Bool → Option ℕ → Option ℕ
first true rest = some zero
first false rest = Option.map suc rest

-- The first call of that circuit and that point code.
unfoldable pub position : ℕ → ℕ → List Call → Option ℕ
position opc cic [] = none
position opc cic (c ∷ cs) = first (is_call opc cic c) (position opc cic cs)

-- `rl->opc` and `rl->sls`. None is the write through the NULL that __isup_new_call gives.
abbrev pub found : List Call → Bool → ℕ → ℕ → ℕ → Option ℕ → Option (List Call × ℕ)
found calls allocated opc sls cic (some i) = some (calls, i)
found calls true opc sls cic none = some (
  calls ++ (record (init_isup_call zeroed) { cic = cic; dpc = opc; sls = sls } ∷ []),
  length calls,
)
found calls false opc sls cic none = none

unfoldable pub isup_find_call : List Call → Bool → ℕ → ℕ → ℕ → Option (List Call × ℕ)
isup_find_call calls allocated opc sls cic =
    found calls allocated opc sls cic (position opc cic calls)
