-- ===== src/Isup/Sample.antt =====
-- A call with a value in every field, and a message buffer of zeros.
use libss.Base.{ℕ, false, List, [], ◌∷◌, replicate}
use libss.Base.Int.{pos, negsuc}
use libss.Isup.Bytes.{Mem}
use libss.Isup.Call.{Number, Call, Ss7}

abbrev pub zeros : Mem
zeros i = 0

-- The text 49*a.
abbrev pub digits : List ℕ
digits = b'4' ∷ b'9' ∷ b'*' ∷ b'a' ∷ []

abbrev pub number : Number
number = record { num = digits; nai = 3; presentation_ind = 1; screening_ind = 2 }

abbrev pub switch : ℕ → Ss7
switch t = record { cause_location = 1; pc = 300; switchtype = t; flags = 0 }

abbrev pub call : Call
call = record {
  called_party_num = digits;
  called_nai = 4;
  calling = number;
  connected = number;
  orig_called = number;
  redirecting = number;
  charge = record { number = digits; nai = 1; num_plan = 1 };
  name = record { typeofname = 1; avail = 0; presentation = 0; text = replicate 16 b'x' };
  cic = 17;
  dpc = 200;
  sls = 5;
  got_sent_msg = λ k. false;
  groups = record {
    grs_endcic = 0;
    cgb_type = 0;
    cgb_endcic = 0;
    cgb_status = replicate 255 0;
    cgu_type = 0;
    cgu_endcic = 0;
    cgu_status = replicate 255 0;
  };
  timer = replicate 64 (negsuc 0);
  gen_add = record { number = digits; nai = 1; pres_ind = 0; num_plan = 1; type = 2 };
  gen_dig = record { number = digits; type = 0; scheme = 0 };
  jip_number = digits;
  lspi = record { type = 1; scheme = 1; context = 0; ident = digits };
  redirection = record { info = 1; ind = 3; orig_reas = 1; counter = 2; reas = 15 };
  redirect_counter = 2;
  cause = record { cause = 16; code = 0; loc = 1 };
  call_ref = record { ident = 70000; pc = 9000 };
  cug = record { indicator = 2; interlock_ni = digits; interlock_code = 4660 };
  cot = record { check_passed = 0; check_required = 1; performed_on_previous_cic = 0 };
  calling_party_cat = 10;
  oli_ani2 = pos 0;
  range = 3;
  status = 0 ∷ 1 ∷ 5 ∷ replicate 252 0;
  transcap = 3;
  cicgroupsupervisiontype = 0;
  event_info = 1;
  called_party_status_ind = 0;
  local_echocontrol_ind = 1;
  echocontrol_ind = 0;
  network_isdn_indicator = 0;
  inr_ind = (0, 0);
  inf_ind = (0, 0);
  col_req = 1;
  interworking_indicator = 0;
  forward_indicator_pmbits = 0;
}
