-- ===== src/Isup/Parms.antt =====
-- The table of parameters of isup.c and `do_parm`, which sends or reads one of them.
pub mod Framing
pub mod Kept
pub mod ReadKept
use mathlib.Core.Option
use libss.Base.{ℕ, ◌+◌, Bool, Option, none, some, List, [], ◌∷◌, if◌then◌else◌, ltb, ◌==◌}
use libss.Isup.Bytes.{Mem, store}
use libss.Isup.Call.{Call, Ss7, Written, or_else}
use libss.Isup.Fields.{
  redirection_info_receive, redirection_info_transmit, redirect_counter_receive,
  redirect_counter_transmit, call_ref_receive, call_ref_transmit, cug_interlock_code_receive,
  cug_interlock_code_transmit, continuity_ind_transmit, continuity_ind_receive,
  circuit_group_supervision_receive, circuit_group_supervision_transmit, event_info_receive,
  event_info_transmit, inr_ind_receive, inr_ind_transmit, inf_ind_receive, inf_ind_transmit,
  suspend_resume_ind_receive, suspend_resume_ind_transmit, originating_line_information_receive,
  originating_line_information_transmit, forward_call_ind_receive, opt_backward_call_ind_receive,
  user_service_info_receive, carrier_identification_transmit, hop_counter_transmit,
  facility_ind_transmit,
}
use libss.Isup.Generic.{
  charge_number_receive, charge_number_transmit, generic_address_receive, generic_address_transmit,
  generic_digits_receive, generic_digits_transmit, jip_receive, jip_transmit, lspi_receive,
  lspi_transmit,
}
use libss.Isup.Indicators.{
  nature_of_connection_ind_transmit, nature_of_connection_ind_receive, forward_call_ind_transmit,
  calling_party_cat_receive, calling_party_cat_transmit, user_service_info_transmit,
  transmission_medium_reqs_transmit, transmission_medium_reqs_receive, backward_call_ind_receive,
  backward_call_ind_transmit, opt_forward_call_ind_transmit, opt_forward_call_ind_receive,
  cause_receive, cause_transmit,
}
use libss.Isup.Numbers.{
  called_party_num_receive, called_party_num_transmit, calling_party_num_receive,
  calling_party_num_transmit, connected_num_receive, connected_num_transmit,
  original_called_num_receive, original_called_num_transmit, redirecting_number_receive,
  redirecting_number_transmit, subs_num_receive, subs_num_transmit,
}
use libss.Isup.Status.{
  range_and_status_receive, range_and_status_transmit, circuit_state_ind_transmit,
}
use libss.Isup.Plain.{
  generic_name_receive, generic_name_transmit, carrier_identification_receive, hop_counter_receive,
  facility_ind_receive, tns_transmit, tns_receive, generic_notification_ind_transmit,
  generic_notification_ind_receive, access_transport_receive, access_transport_transmit,
}

-- What a call comes to: an access outside of an array, the number -1, or a value.
pub data Result {ℓ} (A : Type ℓ) : Type ℓ where
  overrun : Result A
  refused : Result A
  ok : A → Result A

infixl 5 ◌>>=◌
abbrev pub ◌>>=◌ {ℓ κ} : {A : Type ℓ} {B : Type κ} → Result A → (A → Result B) → Result B
overrun >>= f = overrun
refused >>= f = refused
ok a >>= f = f a

abbrev pub of_option {ℓ} : {A : Type ℓ} → Option A → Result A
of_option none = overrun
of_option (some a) = ok a

abbrev pub Receive : Type 0
Receive = Ss7 → Call → ℕ → Mem → ℕ → ℕ → Option (Call × ℕ)

abbrev pub Transmit : Type 0
Transmit = Ss7 → Call → ℕ → Mem → ℕ → ℕ → Option Written

-- `struct parm_func`, without the name and the printing.
pub record Parm : Type 0 where
  pub parm : ℕ
  pub receive : Option Receive
  pub transmit : Option Transmit

abbrev both : ℕ → Receive → Transmit → Parm
both parm r t = record { parm = parm; receive = some r; transmit = some t }

-- The table in its order. Entries with neither function are left out: the search passes them over.
unfoldable pub parms : List Parm
parms =
    both 0x01 call_ref_receive call_ref_transmit
    ∷ both 0x02 transmission_medium_reqs_receive transmission_medium_reqs_transmit
    ∷ both 0x03 access_transport_receive access_transport_transmit
    ∷ both 0x04 called_party_num_receive called_party_num_transmit
    ∷ both 0x05 subs_num_receive subs_num_transmit
    ∷ both 0x06 nature_of_connection_ind_receive nature_of_connection_ind_transmit
    ∷ both 0x07 forward_call_ind_receive forward_call_ind_transmit
    ∷ both 0x08 opt_forward_call_ind_receive opt_forward_call_ind_transmit
    ∷ both 0x09 calling_party_cat_receive calling_party_cat_transmit
    ∷ both 0x0a calling_party_num_receive calling_party_num_transmit
    ∷ both 0x0b redirecting_number_receive redirecting_number_transmit
    ∷ both 0x0e inr_ind_receive inr_ind_transmit
    ∷ both 0x0f inf_ind_receive inf_ind_transmit
    ∷ both 0x10 continuity_ind_receive continuity_ind_transmit
    ∷ both 0x11 backward_call_ind_receive backward_call_ind_transmit
    ∷ both 0x12 cause_receive cause_transmit
    ∷ both 0x13 redirection_info_receive redirection_info_transmit
    ∷ both 0x15 circuit_group_supervision_receive circuit_group_supervision_transmit
    ∷ both 0x16 range_and_status_receive range_and_status_transmit
    ∷ both 0x18 facility_ind_receive facility_ind_transmit
    ∷ both 0x1a cug_interlock_code_receive cug_interlock_code_transmit
    ∷ both 0x1d user_service_info_receive user_service_info_transmit
    ∷ both 0x21 connected_num_receive connected_num_transmit
    ∷ both 0x22 suspend_resume_ind_receive suspend_resume_ind_transmit
    ∷ both 0x23 tns_receive tns_transmit
    ∷ both 0x24 event_info_receive event_info_transmit
    ∷ record { parm = 0x26; receive = none; transmit = some circuit_state_ind_transmit }
    ∷ both 0x28 original_called_num_receive original_called_num_transmit
    ∷ record { parm = 0x29; receive = some opt_backward_call_ind_receive; transmit = none }
    ∷ both 0x2c generic_notification_ind_receive generic_notification_ind_transmit
    ∷ both 0x3d hop_counter_receive hop_counter_transmit
    ∷ both 0x77 redirect_counter_receive redirect_counter_transmit
    ∷ both 0xc0 generic_address_receive generic_address_transmit
    ∷ both 0xc1 generic_digits_receive generic_digits_transmit
    ∷ both 0xc4 jip_receive jip_transmit
    ∷ both 0xc5 carrier_identification_receive carrier_identification_transmit
    ∷ both 0xc7 generic_name_receive generic_name_transmit
    ∷ both 0xe4 lspi_receive lspi_transmit
    ∷ both 0xea originating_line_information_receive originating_line_information_transmit
    ∷ both 0xeb charge_number_receive charge_number_transmit
    ∷ []

pub data ParmType : Type 0 where
  fixed : ParmType
  variable : ParmType
  optional : ParmType

-- The first entry of that number that has the function.
unfoldable pub transmit_of : List Parm → ℕ → Option Transmit
transmit_of [] parm = none
transmit_of (x ∷ xs) parm =
    let rest = transmit_of xs parm in if x.parm == parm then or_else x.transmit rest else rest

unfoldable pub receive_of : List Parm → ℕ → Option Receive
receive_of [] parm = none
receive_of (x ∷ xs) parm =
    let rest = receive_of xs parm in if x.parm == parm then or_else x.receive rest else rest

-- What was written, with the length at `p` and `n` bytes in front of it.
abbrev pub put_length : ℕ → ℕ → Written → Written
put_length p n w =
    if ltb 0 w.size then record w { buf = store w.buf p w.size; size = w.size + n } else w

-- A parameter of fixed length; behind its length; behind its type and its length. One that writes
-- nothing has no length, but the type is in the buffer.
unfoldable pub send_by : Transmit → ParmType → Ss7 → Call → ℕ → ℕ → Mem → ℕ → ℕ → Option Written
send_by f fixed ss7 c message parm m p maxlen = f ss7 c message m p maxlen
send_by f variable ss7 c message parm m p maxlen =
    Option.map (put_length p 1) (f ss7 c message m (p + 1) maxlen)
send_by f optional ss7 c message parm m p maxlen =
    Option.map (put_length (p + 1) 2) (f ss7 c message (store m p parm) (p + 2) maxlen)

-- The number returned: for a variable one it is that of its length byte.
unfoldable pub receive_by : Receive → ParmType → Ss7 → Call → ℕ → Mem → ℕ → ℕ → Option (Call × ℕ)
receive_by f fixed ss7 c message m p maxlen = f ss7 c message m p maxlen
receive_by f variable ss7 c message m p maxlen =
    Option.map (λ r. (r.0, m p + 1)) (f ss7 c message m (p + 1) (m p))
receive_by f optional ss7 c message m p maxlen =
    Option.map (λ r. (r.0, r.1 + 2)) (f ss7 c message m (p + 2) (m (p + 1)))

-- do_parm with `tx`, and without it: -1 where no entry has the function.
abbrev pub or_refused {ℓ κ} : {A : Type ℓ} {B : Type κ} → Option A → (A → Option B) → Result B
or_refused none f = refused
or_refused (some a) f = of_option (f a)

unfoldable pub do_parm_tx : Ss7 → Call → ℕ → ℕ → Mem → ℕ → ℕ → ParmType → Result Written
do_parm_tx ss7 c message parm m p maxlen parmtype =
    or_refused (transmit_of parms parm) (λ f. send_by f parmtype ss7 c message parm m p maxlen)

unfoldable pub do_parm_rx : Ss7 → Call → ℕ → ℕ → Mem → ℕ → ℕ → ParmType → Result (Call × ℕ)
do_parm_rx ss7 c message parm m p maxlen parmtype =
    or_refused (receive_of parms parm) (λ f. receive_by f parmtype ss7 c message m p maxlen)
