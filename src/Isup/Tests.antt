-- ===== src/Isup/Tests.antt =====
-- The parameters of the call of Sample.
use libss.Base.{
  ℕ, zero, suc, ◌<◌, ◌≡◌, ◌↔◌, refl, false, none, some, List, replicate, arith, map, get_or, ◌≤◌,
}
use libss.Mtp2.Transmit.{itu}
use libss.Isup.Bytes.{store}
use libss.Isup.Digits.{isup_get_number, isup_put_number}
use libss.Isup.Digits.Chars.{canonical}
use libss.Isup.Digits.Roundtrip.{isup_get_number-isup_put_number}
use libss.Isup.Call.{Call, Written, Arrives}
use libss.Isup.Sample.{zeros, digits, number, switch, call}
use libss.Isup.Numbers.{
  called_party_num_receive, calling_party_num_receive, calling_party_num_transmit,
  connected_num_receive, connected_num_transmit, redirecting_number_receive,
  redirecting_number_transmit, original_called_num_receive, original_called_num_transmit,
}
use libss.Isup.Numbers.Back.{IsNumber, canonical_number}
use libss.Isup.Numbers.Roundtrip.{
  with_calling, sent_calling, calling_party_num-Arrives, diverted_numbers-Arrive,
}
use libss.Isup.Numbers.Called.{sent_connected, connected_num-Arrives}
use libss.Isup.Numbers.Overrun.{IsTooLong, receive_overruns}
use libss.Isup.Fields.{
  call_ref_receive, call_ref_transmit, cug_interlock_code_receive, cug_interlock_code_transmit,
}
use libss.Isup.Fields.Reference.{call_ref-Arrives}
use libss.Isup.Fields.Interlock.{canonical_ni, cug_interlock_code-Arrives}
use libss.Isup.Status.{
  no_status, range_and_status_receive, range_and_status_transmit, isup_check_status,
}
use libss.Isup.Status.Roundtrip.{
  IsReceived, range_and_status-IsReceived, range_and_status_receive-overrun,
}
use libss.Isup.Status.Check.{isup_check_status_lem}

number-IsNumber : IsNumber number
number-IsNumber = record {
  field = record { text = omega arith; short = refl };
  nai = omega arith;
  presentation = omega arith;
  screening = omega arith;
}

isup_get_number-isup_put_number_example :
    let (m', len, oddeven) = isup_put_number zeros 2 digits in
    isup_get_number m' 2 len oddeven ≡ map canonical digits
isup_get_number-isup_put_number_example =
    isup_get_number-isup_put_number zeros 2 digits (λ j. refl) (omega arith)

calling_party_num-Arrives_example :
    Arrives
      (calling_party_num_transmit (switch itu) call 1 zeros 0 100)
      zeros
      (λ b n. calling_party_num_receive (switch itu) call 1 b 0 n)
      (with_calling call (sent_calling number))
calling_party_num-Arrives_example =
    calling_party_num-Arrives (switch itu) (switch itu) call call 1 zeros 0 100 (λ j. refl)
      number-IsNumber

connected_num-Arrives_example :
    Arrives
      (connected_num_transmit (switch itu) call 1 zeros 0 100)
      zeros
      (λ b n. connected_num_receive (switch itu) call 1 b 0 n)
      (some (record call { connected = sent_connected number }))
connected_num-Arrives_example =
    connected_num-Arrives (switch itu) (switch itu) call call 1 zeros 0 100 (λ j. refl)
      number-IsNumber

diverted_numbers-Arrive_example :
    Arrives
      (redirecting_number_transmit (switch itu) call 1 zeros 0 100)
      zeros
      (λ b n. redirecting_number_receive (switch itu) call 1 b 0 n)
      (some (record call { redirecting = canonical_number number }))
    × Arrives
        (original_called_num_transmit (switch itu) call 1 zeros 0 100)
        zeros
        (λ b n. original_called_num_receive (switch itu) call 1 b 0 n)
        (some (record call { orig_called = canonical_number number }))
diverted_numbers-Arrive_example =
    diverted_numbers-Arrive (switch itu) (switch itu) call call 1 zeros 0 100 (λ j. refl)
      number-IsNumber number-IsNumber

receive_overruns_example :
    ((called_party_num_receive (switch itu) call 1 zeros 0 34 ≡ none) ↔ IsTooLong zeros 0 34)
    × ((calling_party_num_receive (switch itu) call 1 zeros 0 34 ≡ none) ↔ IsTooLong zeros 0 34)
    × ((connected_num_receive (switch itu) call 1 zeros 0 34 ≡ none) ↔ IsTooLong zeros 0 34)
    × ((redirecting_number_receive (switch itu) call 1 zeros 0 34 ≡ none) ↔ IsTooLong zeros 0 34)
    × ((original_called_num_receive (switch itu) call 1 zeros 0 34 ≡ none) ↔ IsTooLong zeros 0 34)
receive_overruns_example = receive_overruns (switch itu) call 1 zeros 0 34

call_ref-Arrives_example :
    Arrives
      (call_ref_transmit (switch itu) call 1 zeros 0 100)
      zeros
      (λ b n. call_ref_receive (switch itu) call 1 b 0 n)
      (some call)
call_ref-Arrives_example =
    call_ref-Arrives (switch itu) call call 1 zeros 0 100 (omega arith) (omega arith)

ni_are_bytes : (i : ℕ) → get_or digits i 0 < 256
ni_are_bytes zero = omega arith
ni_are_bytes (suc zero) = omega arith
ni_are_bytes (suc (suc zero)) = omega arith
ni_are_bytes (suc (suc (suc zero))) = omega arith
ni_are_bytes (suc (suc (suc (suc i)))) = omega arith

cug_interlock_code-Arrives_example :
    Arrives
      (cug_interlock_code_transmit (switch itu) call 1 zeros 0 100)
      zeros
      (λ b n. cug_interlock_code_receive (switch itu) call 1 b 0 n)
      (some (record call { cug = record call.cug { interlock_ni = canonical_ni call } }))
cug_interlock_code-Arrives_example =
    cug_interlock_code-Arrives (switch itu) (switch itu) call call 1 zeros 0 100 ni_are_bytes
      (omega arith)

range_and_status-IsReceived_example :
    (w : Written) × (range_and_status_transmit (switch itu) call 1 zeros 0 100 ≡ some w)
    × ((r : Call) × (range_and_status_receive (switch itu) call 1 w.buf 0 w.size ≡ some (r, w.size))
        × IsReceived call r call.status)
range_and_status-IsReceived_example =
    range_and_status-IsReceived (switch itu) (switch itu) call call 1 zeros 0 100 refl (omega arith)
      (omega arith) (omega arith)

range_and_status_receive-overrun_example :
    (range_and_status_receive (switch itu) call 1 (store zeros 0 255) 0 34 ≡ none)
    ↔ ((no_status 1 ≡ false) × (store zeros 0 255 0 ≡ 255))
unfolding store
range_and_status_receive-overrun_example =
    range_and_status_receive-overrun (switch itu) call 1 (store zeros 0 255) 0 34 refl (omega arith)

abbrev ones : List ℕ
ones = replicate 255 1

isup_check_status_lem_example :
    (isup_check_status ones call.status 3 ≡ some 0)
    ↔ ((k : ℕ) → k ≤ 3 → get_or call.status k 0 ≤ get_or ones k 0)
isup_check_status_lem_example = isup_check_status_lem ones call.status 3 (omega arith) (omega arith)
