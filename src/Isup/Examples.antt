-- ===== src/Isup/Examples.antt =====
-- Messages of the call of Sample.
use libss.Base.{
  zero, suc, set, ◌+◌, refl, inl, arith, some, none, true, List, [], ◌∷◌, map, replicate, ◌≡◌, ℕ,
}
use libss.Mtp2.Transmit.{itu}
use libss.Isup.Bytes.{store}
use libss.Isup.Call.{Written}
use libss.Isup.Indicators.{cause_receive, cause_transmit}
use libss.Isup.Sample.{zeros, digits, switch, call}
use libss.Isup.Parms.{optional, transmit_of, receive_of, parms}
use libss.Isup.Parms.Framing.{ReadsFrom, IsFramed, do_parm-IsFramed}
use libss.Isup.Messages.{rel}
use libss.Isup.Receive.{isup_read}
use libss.Isup.Receive.Ends.{Ends, isup_read-Ends}
use libss.Isup.Setters.{
  dialled, isup_set_called, isup_set_calling, isup_set_redirecting_number, isup_set_orig_called_num,
}
use libss.Isup.Setters.Sent.{isup_set_called-Arrives, isup_set_numbers-overrun}
use libss.Isup.Calls.{isup_find_call}
use libss.Isup.Calls.Found.{IsFound, isup_find_call-IsFound}
use libss.Isup.Digits.Chars.{canonical}
use libss.Isup.Numbers.{
  called_party_num_receive, called_party_num_transmit, calling_party_num_transmit,
  original_called_num_transmit, redirecting_number_transmit,
}
use libss.Isup.Call.{Call, Arrives}
use libss.Sched.{Sched}
use libss.Base.Int.{pos, negsuc}
use libss.Isup.Timers.{isup_free_call}
use libss.Isup.Timers.Stopped.{InTable, IsFreed, isup_free_call-IsFreed}
use libss.Isup.Release.{IsReleased, label_size, isup_send_message-IsReleased}

isup_read-Ends_example : Ends (isup_read (switch itu) call zeros 4 20)
isup_read-Ends_example = isup_read-Ends (switch itu) call zeros 4 20

isup_send_message-IsReleased_example :
    IsReleased (switch itu) (switch itu) call call zeros 528 (label_size itu)
isup_send_message-IsReleased_example =
    isup_send_message-IsReleased (switch itu) (switch itu) call call zeros 528 (inl refl) refl
      (omega arith) (record { code = omega arith; loc = omega arith; cause = omega arith })

-- The cause of the call of Sample, as an optional parameter at 5.
abbrev cause_written : Written
cause_written = record {
  call = call;
  buf = store (store (store zeros 5 0x12) 7 129) 8 144;
  size = 2;
}

cause-ReadsFrom : ReadsFrom cause_receive
unfolding cause_receive
cause-ReadsFrom ss7 c mt b b' p n h = rw (h p (omega arith), h (p + 1) (omega arith))

do_parm-IsFramed_example :
    IsFramed (switch itu) (switch itu) call call call rel 0x12 zeros 5 100 0 optional cause_written
unfolding transmit_of receive_of parms cause_transmit cause_receive store
do_parm-IsFramed_example =
    do_parm-IsFramed (switch itu) (switch itu) call call call rel 0x12 zeros 5 100 0 cause_transmit
      cause_receive cause_written refl refl cause-ReadsFrom (omega arith) (omega arith) optional
      (omega arith) refl refl

isup_set_called-Arrives_example :
    Arrives
      (called_party_num_transmit
        (switch itu)
        (isup_set_called call (some digits) 3 (switch itu))
        1
        zeros
        0
        100)
      zeros
      (λ b n. called_party_num_receive (switch itu) call 1 b 0 n)
      (some (record call {
        called_party_num = map canonical (dialled (switch itu) digits);
        called_nai = 3;
      }))
isup_set_called-Arrives_example =
    isup_set_called-Arrives (switch itu) (switch itu) call call digits 3 1 zeros 0 100 (λ j. refl)
      (omega arith) refl (omega arith)

-- A text that fills an array of 64 bytes.
abbrev long : List ℕ
long = replicate 64 b'5'

isup_set_numbers-overrun_example :
    (calling_party_num_transmit (switch itu) (isup_set_calling call (some long) 3 0 1) 1 zeros 0 100
      ≡ none)
    × (redirecting_number_transmit
          (switch itu)
          (isup_set_redirecting_number call (some long) 3 0 1)
          1
          zeros
          0
          100
        ≡ none)
    × (original_called_num_transmit
          (switch itu)
          (isup_set_orig_called_num call (some long) 3 0 1)
          1
          zeros
          0
          100
        ≡ none)
isup_set_numbers-overrun_example =
    isup_set_numbers-overrun (switch itu) call long 3 0 1 1 zeros 0 100 (omega arith) refl

isup_find_call-IsFound_example :
    (calls' : List Call) × (i : ℕ) × (isup_find_call (call ∷ []) true 201 5 17 ≡ some (calls', i))
    × IsFound 201 17 (call ∷ []) calls' i
isup_find_call-IsFound_example = isup_find_call-IsFound (call ∷ []) 201 5 17

-- A table with one slot in use, which is that of timer 2 of the call.
abbrev one_slot : Sched ℕ ℕ
one_slot = record {
  slots =
      set
        (replicate 512
          (record { when = record { tv_sec = 0; tv_usec = 0 }; callback = none; arg = none }))
        3 (record { when = record { tv_sec = 7; tv_usec = 0 }; callback = some 1; arg = some 2 });
  stray = 0;
}

abbrev timed : Call
timed = record call { timer = negsuc 0 ∷ negsuc 0 ∷ pos 3 ∷ [] }

timed-InTable : InTable timed.timer
timed-InTable zero n h = grind arith
timed-InTable (suc zero) n h = grind arith
timed-InTable (suc (suc zero)) n h = grind arith
timed-InTable (suc (suc (suc i))) n h = grind arith

isup_free_call-IsFreed_example :
    IsFreed one_slot (call ∷ timed ∷ []) 1 timed (isup_free_call one_slot (call ∷ timed ∷ []) 1)
isup_free_call-IsFreed_example =
    isup_free_call-IsFreed one_slot (call ∷ timed ∷ []) 1 timed refl refl timed-InTable
