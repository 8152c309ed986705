-- ===== src/Isup/Parms/Kept.antt =====
-- The timers of a call are those that it had before a parameter is sent.
use libss.Base.{
  ℕ, ◌+◌, ◌∙◌, ◌≡◌, refl, Option, none, some, List, [], ◌∷◌, Bool-cases, inl, inr, ◌==◌, arith,
}
use mathlib.Core.Option
use libss.Base.Int.{ℤ}
use libss.Isup.Bytes.{Mem, store}
use libss.Isup.Call.{Call, Ss7, Written, or_else}
use libss.Isup.Parms.{
  Result, overrun, refused, ok, Parm, Transmit, ParmType, fixed, variable, optional, transmit_of,
  send_by, put_length, parms, do_parm_tx, of_option, or_refused,
}
use libss.Isup.Fields.{
  redirection_info_transmit, redirect_counter_transmit, call_ref_transmit,
  cug_interlock_code_transmit, continuity_ind_transmit, circuit_group_supervision_transmit,
  event_info_transmit, inr_ind_transmit, inf_ind_transmit, suspend_resume_ind_transmit,
  carrier_identification_transmit, hop_counter_transmit, facility_ind_transmit,
  originating_line_information_transmit,
}
use libss.Isup.Generic.{
  charge_number_transmit, generic_address_transmit, generic_digits_transmit, jip_transmit,
  lspi_transmit,
}
use libss.Isup.Indicators.{
  nature_of_connection_ind_transmit, forward_call_ind_transmit, calling_party_cat_transmit,
  user_service_info_transmit, transmission_medium_reqs_transmit, backward_call_ind_transmit,
  opt_forward_call_ind_transmit, cause_transmit,
}
use libss.Isup.Numbers.{
  called_party_num_transmit, calling_party_num_transmit, connected_num_transmit,
  original_called_num_transmit, redirecting_number_transmit, subs_num_transmit,
}
use libss.Isup.Plain.{
  generic_name_transmit, tns_transmit, generic_notification_ind_transmit, access_transport_transmit,
}
use libss.Isup.Status.{range_and_status_transmit, circuit_state_ind_transmit}

abbrev timer_of : List ℤ → Option Written → List ℤ
timer_of ids none = ids
timer_of ids (some v) = v.call.timer

-- What is written is that of a call with the same timers.
abbrev KeepsTimers : Transmit → Type 0
KeepsTimers f =
    (ss7 : Ss7) (c : Call) (message : ℕ) (m : Mem) (p n : ℕ)
    → timer_of c.timer (f ss7 c message m p n) ≡ c.timer

abbrev OneKeeps : Option Transmit → Type 0
OneKeeps none = Unit {0}
OneKeeps (some f) = KeepsTimers f

abbrev AllKeep : List Parm → Type 0
AllKeep [] = Unit {0}
AllKeep (x ∷ xs) = OneKeeps x.transmit × AllKeep xs

parms-AllKeep : AllKeep parms
unfolding parms redirection_info_transmit redirect_counter_transmit call_ref_transmit
    cug_interlock_code_transmit continuity_ind_transmit circuit_group_supervision_transmit
    event_info_transmit inr_ind_transmit inf_ind_transmit suspend_resume_ind_transmit
    carrier_identification_transmit hop_counter_transmit facility_ind_transmit
    originating_line_information_transmit charge_number_transmit generic_address_transmit
    generic_digits_transmit jip_transmit lspi_transmit nature_of_connection_ind_transmit
    forward_call_ind_transmit calling_party_cat_transmit user_service_info_transmit
    transmission_medium_reqs_transmit backward_call_ind_transmit opt_forward_call_ind_transmit
    cause_transmit called_party_num_transmit calling_party_num_transmit connected_num_transmit
    original_called_num_transmit redirecting_number_transmit subs_num_transmit generic_name_transmit
    tns_transmit generic_notification_ind_transmit access_transport_transmit
    range_and_status_transmit circuit_state_ind_transmit
parms-AllKeep = (
  λ ss7 c message m p n. ground arith,
  (
    λ ss7 c message m p n. ground arith,
    (
      λ ss7 c message m p n. ground arith,
      (
        λ ss7 c message m p n. ground arith,
        (
          λ ss7 c message m p n. ground arith,
          (
            λ ss7 c message m p n. ground arith,
            (
              λ ss7 c message m p n. ground arith,
              (
                λ ss7 c message m p n. ground arith,
                (
                  λ ss7 c message m p n. ground arith,
                  (
                    λ ss7 c message m p n. ground arith,
                    (
                      λ ss7 c message m p n. ground arith,
                      (
                        λ ss7 c message m p n. ground arith,
                        (
                          λ ss7 c message m p n. ground arith,
                          (
                            λ ss7 c message m p n. ground arith,
                            (
                              λ ss7 c message m p n. ground arith,
                              (
                                λ ss7 c message m p n. ground arith,
                                (
                                  λ ss7 c message m p n. ground arith,
                                  (
                                    λ ss7 c message m p n. ground arith,
                                    (
                                      λ ss7 c message m p n. ground arith,
                                      (
                                        λ ss7 c message m p n. ground arith,
                                        (
                                          λ ss7 c message m p n. ground arith,
                                          (
                                            λ ss7 c message m p n. ground arith,
                                            (
                                              λ ss7 c message m p n. ground arith,
                                              (
                                                λ ss7 c message m p n. ground arith,
                                                (
                                                  λ ss7 c message m p n. ground arith,
                                                  (
                                                    λ ss7 c message m p n. ground arith,
                                                    (
                                                      λ ss7 c message m p n. ground arith,
                                                      (
                                                        λ ss7 c message m p n. ground arith,
                                                        (
                                                          tt,
                                                          (
                                                            λ ss7 c message m p n. ground arith,
                                                            (
                                                            λ ss7 c message m p n. ground arith,
                                                            (
                                                            λ ss7 c message m p n. ground arith,
                                                            (
                                                            λ ss7 c message m p n. ground arith,
                                                            (
                                                            λ ss7 c message m p n. ground arith,
                                                            (
                                                            λ ss7 c message m p n. ground arith,
                                                            (
                                                            λ ss7 c message m p n. ground arith,
                                                            (
                                                            λ ss7 c message m p n. ground arith,
                                                            (
                                                            λ ss7 c message m p n. ground arith,
                                                            (
                                                            λ ss7 c message m p n. ground arith,
                                                            (
                                                            λ ss7 c message m p n. ground arith,
                                                            tt,
                                                            ),
                                                            ),
                                                            ),
                                                            ),
                                                            ),
                                                            ),
                                                            ),
                                                            ),
                                                            ),
                                                            ),
                                                          ),
                                                        ),
                                                      ),
                                                    ),
                                                  ),
                                                ),
                                              ),
                                            ),
                                          ),
                                        ),
                                      ),
                                    ),
                                  ),
                                ),
                              ),
                            ),
                          ),
                        ),
                      ),
                    ),
                  ),
                ),
              ),
            ),
          ),
        ),
      ),
    ),
  ),
)

transmit_of-OneKeeps : (xs : List Parm) (parm : ℕ) → AllKeep xs → OneKeeps (transmit_of xs parm)
unfolding transmit_of
transmit_of-OneKeeps [] parm k = tt
transmit_of-OneKeeps (x ∷ xs) parm k = elim (Bool-cases (x.parm == parm)) [
  | inl e ↦
      rw e (either x.transmit (transmit_of xs parm) (k.0) (transmit_of-OneKeeps xs parm (k.1)))
  | inr e ↦ rw e (transmit_of-OneKeeps xs parm (k.1))
]
  where
    either : (o o' : Option Transmit) → OneKeeps o → OneKeeps o' → OneKeeps (or_else o o')
    either none o' k k' = k'
    either (some f) o' k k' = k

abbrev pub written_timer : List ℤ → Result Written → List ℤ
written_timer ids overrun = ids
written_timer ids refused = ids
written_timer ids (ok w) = w.call.timer

of_option_timer :
    (ids : List ℤ) (o : Option Written) → written_timer ids (of_option o) ≡ timer_of ids o
of_option_timer ids none = refl
of_option_timer ids (some w) = refl

map_timer :
    (ids : List ℤ) (o : Option Written) (n k : ℕ)
    → timer_of ids (Option.map (put_length n k) o) ≡ timer_of ids o
map_timer ids none n k = refl
map_timer ids (some w) n k = ground arith

send_by_timer :
    (f : Transmit) (k : ParmType) (ss7 : Ss7) (c : Call) (message parm : ℕ) (m : Mem) (p n : ℕ)
    → KeepsTimers f
    → timer_of c.timer (send_by f k ss7 c message parm m p n) ≡ c.timer
unfolding send_by
send_by_timer f fixed ss7 c message parm m p n h = h ss7 c message m p n
send_by_timer f variable ss7 c message parm m p n h =
    map_timer c.timer (f ss7 c message m (p + 1) n) p 1 ∙ h ss7 c message m (p + 1) n
send_by_timer f optional ss7 c message parm m p n h =
    map_timer c.timer (f ss7 c message (store m p parm) (p + 2) n) (p + 1) 2
    ∙ h ss7 c message (store m p parm) (p + 2) n

pub do_parm_tx_timer :
    (k : ParmType) (ss7 : Ss7) (c : Call) (message parm : ℕ) (m : Mem) (p n : ℕ)
    → written_timer c.timer (do_parm_tx ss7 c message parm m p n k) ≡ c.timer
unfolding do_parm_tx
do_parm_tx_timer k ss7 c message parm m p n =
    chosen (transmit_of parms parm) (transmit_of-OneKeeps parms parm parms-AllKeep)
  where
    chosen :
        (o : Option Transmit)
        → OneKeeps o
        → written_timer c.timer (or_refused o (λ f. send_by f k ss7 c message parm m p n)) ≡ c.timer
    chosen none h = refl
    chosen (some f) h =
        of_option_timer c.timer (send_by f k ss7 c message parm m p n)
        ∙ send_by_timer f k ss7 c message parm m p n h
