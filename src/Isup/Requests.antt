-- ===== src/Isup/Requests.antt =====
-- The functions of libss7.h that send a message for a call, start or stop its timers, offer it to the
-- application or free it, as one type of requests; one without an answer answers 0 here. `isup_iam` and
-- the others have the arguments of the code; the reference that isup_far takes from the call behind
-- this one in the list is an argument.
use libss.Base.{ℕ, Option, List}
use libss.Base.Int.{ℤ, pos}
use libss.Isup.Call.{CallRef}
use libss.Isup.World.{CallWorld, Outside, timer, free, free_if_clear}
use libss.Isup.Timers.{isup_start_timer}
use libss.Isup.Incoming.{isup_event_iam, isup_clear_callflags}
use libss.Isup.GroupSenders.{isup_grs, isup_gra, isup_cgb, isup_cgu, isup_cgba, isup_cgua}
use libss.Isup.Senders.{
  isup_iam, isup_acm, isup_anm, isup_con, isup_cpg, isup_frj, isup_faa, isup_rlc, isup_bla,
  isup_uba, isup_inf, isup_sus, isup_res, isup_far, isup_rel, isup_inr, isup_rsc, isup_blo,
  isup_ubl,
}

pub data Request : Type 0 where
  ask_grs : ℕ → Request
  ask_gra ask_cgba ask_cgua : ℕ → List ℕ → Request
  ask_cgb ask_cgu : ℕ → List ℕ → ℕ → Request
  ask_iam ask_acm ask_anm ask_con ask_frj ask_faa ask_rlc ask_bla ask_uba ask_rsc ask_blo ask_ubl :
      Request
  ask_cpg ask_sus ask_res : ℕ → Request
  ask_inf ask_inr : ℕ → ℕ → Request
  ask_far : Option CallRef → Request
  ask_rel : ℤ → Request
  ask_digittimeout ask_free_call ask_free_if_clear : Request
  ask_clear_callflags : List ℕ → Request
  ask_event_iam : ℕ → Request

unfoldable pub isup_start_digittimeout : CallWorld → CallWorld × ℤ
unfolding isup_start_timer
isup_start_digittimeout w =
    let (sched, c, answer) = isup_start_timer w.sched w.now w.call 10 (w.delays 10) tt (timer 10) in
    (record w { sched = sched; call = c }, answer)

unfoldable pub perform : Outside → Request → CallWorld → CallWorld × ℤ
perform o (ask_grs endcic) = isup_grs o endcic
perform o (ask_gra endcic state) = isup_gra o endcic state
perform o (ask_cgba endcic state) = isup_cgba o endcic state
perform o (ask_cgua endcic state) = isup_cgua o endcic state
perform o (ask_cgb endcic state type) = isup_cgb o endcic state type
perform o (ask_cgu endcic state type) = isup_cgu o endcic state type
perform o ask_iam = isup_iam o
perform o ask_acm = isup_acm o
perform o ask_anm = isup_anm o
perform o ask_con = isup_con o
perform o ask_frj = isup_frj o
perform o ask_faa = isup_faa o
perform o ask_rlc = isup_rlc o
perform o ask_bla = isup_bla o
perform o ask_uba = isup_uba o
perform o ask_rsc = isup_rsc o
perform o ask_blo = isup_blo o
perform o ask_ubl = isup_ubl o
perform o (ask_cpg event) = isup_cpg o event
perform o (ask_sus indicator) = isup_sus o indicator
perform o (ask_res indicator) = isup_res o indicator
perform o (ask_inf ind0 ind1) = isup_inf o ind0 ind1
perform o (ask_inr ind0 ind1) = isup_inr o ind0 ind1
perform o (ask_far next) = isup_far o next
perform o (ask_rel cause) = isup_rel o cause
perform o ask_digittimeout = isup_start_digittimeout
perform o ask_free_call = λ w. (free w, pos 0)
perform o ask_free_if_clear = λ w. ((free_if_clear w).0, pos 0)
perform o (ask_clear_callflags flags) = λ w. (isup_clear_callflags flags w, pos 0)
perform o (ask_event_iam opc) = isup_event_iam o opc
