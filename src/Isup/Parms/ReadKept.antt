-- ===== src/Isup/Parms/ReadKept.antt =====
-- The timers of a call are those that it had before a parameter is read into it.
use mathlib.Core.Option
use libss.Base.{
  ℕ, ◌+◌, ◌∙◌, ◌≡◌, refl, Option, none, some, List, [], ◌∷◌, Bool-cases, inl, inr, ◌==◌, arith,
}
use libss.Base.Int.{ℤ}
use libss.Isup.Bytes.{Mem}
use libss.Isup.Call.{Call, Ss7, or_else}
use libss.Isup.Parms.{
  Result, overrun, refused, ok, Parm, Receive, ParmType, fixed, variable, optional, receive_of,
  receive_by, parms, do_parm_rx, of_option, or_refused,
}
use libss.Isup.Fields.{
  call_ref_receive, forward_call_ind_receive, inr_ind_receive, inf_ind_receive,
  continuity_ind_receive, redirection_info_receive, circuit_group_supervision_receive,
  cug_interlock_code_receive, user_service_info_receive, suspend_resume_ind_receive,
  event_info_receive, opt_backward_call_ind_receive, redirect_counter_receive,
  originating_line_information_receive,
}
use libss.Isup.Indicators.{
  transmission_medium_reqs_receive, nature_of_connection_ind_receive, opt_forward_call_ind_receive,
  calling_party_cat_receive, backward_call_ind_receive, cause_receive,
}
use libss.Isup.Plain.{
  access_transport_receive, facility_ind_receive, tns_receive, generic_notification_ind_receive,
  hop_counter_receive, carrier_identification_receive, generic_name_receive,
}
use libss.Isup.Numbers.{
  called_party_num_receive, subs_num_receive, calling_party_num_receive, redirecting_number_receive,
  connected_num_receive, original_called_num_receive,
}
use libss.Isup.Status.{range_and_status_receive}
use libss.Isup.Generic.{
  generic_address_receive, generic_digits_receive, jip_receive, lspi_receive, charge_number_receive,
}

abbrev timer_of : List ℤ → Option (Call × ℕ) → List ℤ
timer_of ids none = ids
timer_of ids (some x) = x.0.timer

-- What is read is that of a call with the same timers.
abbrev KeepsTimers : Receive → Type 0
KeepsTimers f =
    (ss7 : Ss7) (c : Call) (message : ℕ) (m : Mem) (p n : ℕ)
    → timer_of c.timer (f ss7 c message m p n) ≡ c.timer

abbrev OneKeeps : Option Receive → Type 0
OneKeeps none = Unit {0}
OneKeeps (some f) = KeepsTimers f

abbrev AllKeep : List Parm → Type 0
AllKeep [] = Unit {0}
AllKeep (x ∷ xs) = OneKeeps x.receive × AllKeep xs

parms-AllKeep : AllKeep parms
unfolding parms call_ref_receive transmission_medium_reqs_receive access_transport_receive
    called_party_num_receive subs_num_receive nature_of_connection_ind_receive
    forward_call_ind_receive opt_forward_call_ind_receive calling_party_cat_receive
    calling_party_num_receive redirecting_number_receive inr_ind_receive inf_ind_receive
    continuity_ind_receive backward_call_ind_receive cause_receive redirection_info_receive
    circuit_group_supervision_receive range_and_status_receive facility_ind_receive
    cug_interlock_code_receive user_service_info_receive connected_num_receive
    suspend_resume_ind_receive tns_receive event_info_receive original_called_num_receive
    opt_backward_call_ind_receive generic_notification_ind_receive hop_counter_receive
    redirect_counter_receive generic_address_receive generic_digits_receive jip_receive
    carrier_identification_receive generic_name_receive lspi_receive
    originating_line_information_receive charge_number_receive
parms-AllKeep = (
  λ ss7 c message m p n. ground arith,
  (
    λ ss7 c message m p n. ground arith,
    (
      λ ss7 c message m p n. ground arith,
      (
        λ ss7 c message m p n. ground arith,
        (
          λ ss7 c message m p n. ground arith,
          (
            λ ss7 c message m p n. ground arith,
            (
              λ ss7 c message m p n. ground arith,
              (
                λ ss7 c message m p n. ground arith,
                (
                  λ ss7 c message m p n. ground arith,
                  (
                    λ ss7 c message m p n. ground arith,
                    (
                      λ ss7 c message m p n. ground arith,
                      (
                        λ ss7 c message m p n. ground arith,
                        (
                          λ ss7 c message m p n. ground arith,
                          (
                            λ ss7 c message m p n. ground arith,
                            (
                              λ ss7 c message m p n. ground arith,
                              (
                                λ ss7 c message m p n. ground arith,
                                (
                                  λ ss7 c message m p n. ground arith,
                                  (
                                    λ ss7 c message m p n. ground arith,
                                    (
                                      λ ss7 c message m p n. ground arith,
                                      (
                                        λ ss7 c message m p n. ground arith,
                                        (
                                          λ ss7 c message m p n. ground arith,
                                          (
                                            λ ss7 c message m p n. ground arith,
                                            (
                                              λ ss7 c message m p n. ground arith,
                                              (
                                                λ ss7 c message m p n. ground arith,
                                                (
                                                  λ ss7 c message m p n. ground arith,
                                                  (
                                                    λ ss7 c message m p n. ground arith,
                                                    (
                                                      tt,
                                                      (
                                                        λ ss7 c message m p n. ground arith,
                                                        (
                                                          λ ss7 c message m p n. ground arith,
                                                          (
                                                            λ ss7 c message m p n. ground arith,
                                                            (
                                                            λ ss7 c message m p n. ground arith,
                                                            (
                                                            λ ss7 c message m p n. ground arith,
                                                            (
                                                            λ ss7 c message m p n. ground arith,
                                                            (
                                                            λ ss7 c message m p n. ground arith,
                                                            (
                                                            λ ss7 c message m p n. ground arith,
                                                            (
                                                            λ ss7 c message m p n. ground arith,
                                                            (
                                                            λ ss7 c message m p n. ground arith,
                                                            (
                                                            λ ss7 c message m p n. ground arith,
                                                            (
                                                            λ ss7 c message m p n. ground arith,
                                                            (
                                                            λ ss7 c message m p n. ground arith,
                                                            tt,
                                                            ),
                                                            ),
                                                            ),
                                                            ),
                                                            ),
                                                            ),
                                                            ),
                                                            ),
                                                            ),
                                                            ),
                                                          ),
                                                        ),
                                                      ),
                                                    ),
                                                  ),
                                                ),
                                              ),
                                            ),
                                          ),
                                        ),
                                      ),
                                    ),
                                  ),
                                ),
                              ),
                            ),
                          ),
                        ),
                      ),
                    ),
                  ),
                ),
              ),
            ),
          ),
        ),
      ),
    ),
  ),
)

receive_of-OneKeeps : (xs : List Parm) (parm : ℕ) → AllKeep xs → OneKeeps (receive_of xs parm)
unfolding receive_of
receive_of-OneKeeps [] parm k = tt
receive_of-OneKeeps (x ∷ xs) parm k = elim (Bool-cases (x.parm == parm)) [
  | inl e ↦ rw e (either x.receive (receive_of xs parm) (k.0) (receive_of-OneKeeps xs parm (k.1)))
  | inr e ↦ rw e (receive_of-OneKeeps xs parm (k.1))
]
  where
    either : (o o' : Option Receive) → OneKeeps o → OneKeeps o' → OneKeeps (or_else o o')
    either none o' k k' = k'
    either (some f) o' k k' = k

abbrev pub read_timer : List ℤ → Result (Call × ℕ) → List ℤ
read_timer ids overrun = ids
read_timer ids refused = ids
read_timer ids (ok x) = x.0.timer

of_option_timer :
    (ids : List ℤ) (o : Option (Call × ℕ)) → read_timer ids (of_option o) ≡ timer_of ids o
of_option_timer ids none = refl
of_option_timer ids (some x) = refl

map_timer :
    (ids : List ℤ) (o : Option (Call × ℕ)) (k : Call × ℕ → ℕ)
    → timer_of ids (Option.map (λ r. (r.0, k r)) o) ≡ timer_of ids o
map_timer ids none k = refl
map_timer ids (some x) k = refl

receive_by_timer :
    (f : Receive) (k : ParmType) (ss7 : Ss7) (c : Call) (message : ℕ) (m : Mem) (p n : ℕ)
    → KeepsTimers f
    → timer_of c.timer (receive_by f k ss7 c message m p n) ≡ c.timer
unfolding receive_by
receive_by_timer f fixed ss7 c message m p n h = h ss7 c message m p n
receive_by_timer f variable ss7 c message m p n h =
    map_timer c.timer (f ss7 c message m (p + 1) (m p)) (λ r. m p + 1)
    ∙ h ss7 c message m (p + 1) (m p)
receive_by_timer f optional ss7 c message m p n h =
    map_timer c.timer (f ss7 c message m (p + 2) (m (p + 1))) (λ r. r.1 + 2)
    ∙ h ss7 c message m (p + 2) (m (p + 1))

pub do_parm_rx_timer :
    (k : ParmType) (ss7 : Ss7) (c : Call) (message parm : ℕ) (m : Mem) (p n : ℕ)
    → read_timer c.timer (do_parm_rx ss7 c message parm m p n k) ≡ c.timer
unfolding do_parm_rx
do_parm_rx_timer k ss7 c message parm m p n =
    chosen (receive_of parms parm) (receive_of-OneKeeps parms parm parms-AllKeep)
  where
    chosen :
        (o : Option Receive)
        → OneKeeps o
        → read_timer c.timer (or_refused o (λ f. receive_by f k ss7 c message m p n)) ≡ c.timer
    chosen none h = refl
    chosen (some f) h =
        of_option_timer c.timer (receive_by f k ss7 c message m p n)
        ∙ receive_by_timer f k ss7 c message m p n h
