-- ===== src/Isup/Running/Receiving.antt =====
-- The timers of a call behind isup_receive.
use libss.Base.{ℕ, ◌+◌, ◌≡◌, ◌≢◌, ◌∙◌, refl, arith, Option, none, some}
use libss.Base.Int.{ℤ, minus_one}
use libss.Isup.Bytes.{Mem}
use libss.Isup.Call.{Call, Ss7}
use libss.Isup.Parms.{Result, overrun, refused, ok}
use libss.Isup.Messages.{MessageData, message_of}
use libss.Isup.Receive.{get_cic, isup_read}
use libss.Isup.Receive.Ends.{isup_read-Ends}
use libss.Isup.Receive.Kept.{HoldsOf, isup_read-timer}
use libss.Isup.World.{CallWorld, Outside}
use libss.Isup.Arrival.{go_by, if_known, isup_receive}
use libss.Isup.Running.{IsRunning, IsSafe, IsGentle, running-IsSafe, free-IsSafe}
use libss.Isup.Running.Handling.{isup_switch-IsSafe}

-- What a message for a call of the list comes to. Where its parameters cannot be read without an
-- access outside of an array, there is nothing to say of what follows.
pub data Lands (ss7 : Ss7) (c : Call) (m : Mem) (at len : ℕ)
    : Option (Result (CallWorld × ℤ)) → Type 0 where
  unknown :
      (v : CallWorld) (answer : ℤ)
      → message_of ss7.switchtype (m (at + 2)) ≡ none
      → IsSafe v
      → Lands ss7 c m at len (some (ok (v, answer)))
  handled :
      (r : Result Call) (v : CallWorld) (answer : ℤ)
      → isup_read ss7 c m at len ≡ some r
      → r ≢ overrun
      → IsSafe v
      → Lands ss7 c m at len (some (ok (v, answer)))
  outside : isup_read ss7 c m at len ≡ some overrun → Lands ss7 c m at len (some overrun)

pub landed :
    {ss7 : Ss7} {c : Call} {m : Mem} {at len : ℕ} {v : CallWorld} {answer : ℤ}
    → Lands ss7 c m at len (some (ok (v, answer)))
    → IsSafe v
landed (unknown v answer e s) = s
landed (handled r v answer e n s) = s

module _ (o : Outside) (g : IsGentle o) (opc : ℕ) where
  go_by-Lands :
      (cic type : ℕ) (m : Mem) (at len : ℕ) (w : CallWorld) (r : Result Call)
      → isup_read w.ss7 w.call m at len ≡ some r
      → HoldsOf (λ d. d.timer ≡ w.call.timer) (some r)
      → IsRunning w
      → Lands w.ss7 w.call m at len (go_by o opc cic type w (some r))
  unfolding go_by
  go_by-Lands cic type m at len w overrun e h r = outside e
  go_by-Lands cic type m at len w refused e h r =
      handled refused _ _ e (λ q. grind arith) (free-IsSafe _ (g.call_null w 1 (running-IsSafe r)))
  go_by-Lands cic type m at len w (ok c) e h r =
      handled (ok c) _ _ e (λ q. grind arith)
        (isup_switch-IsSafe o g cic opc type _ (record { owned = rw h (r.owned); alive = r.alive }))

  pub isup_receive-Lands :
      (m : Mem) (at len : ℕ) (w : CallWorld)
      → IsRunning w
      → Lands w.ss7 w.call m at len (isup_receive o opc m at len w)
  unfolding isup_receive
  isup_receive-Lands m at len w r = known (message_of w.ss7.switchtype (m (at + 2))) refl
    where
      cic : ℕ
      cic = get_cic w.ss7 m at

      read :
          (v : Option (Result Call)) (r' : Result Call)
          → isup_read w.ss7 w.call m at len ≡ v
          → v ≡ some r'
          → HoldsOf (λ d. d.timer ≡ w.call.timer) v
          → Lands w.ss7 w.call m at len (go_by o opc cic (m (at + 2)) w v)
      read v r' e q = rw q (λ h. go_by-Lands cic (m (at + 2)) m at len w r' (e ∙ q) h r)

      known :
          (x : Option MessageData)
          → message_of w.ss7.switchtype (m (at + 2)) ≡ x
          → Lands w.ss7 w.call m at len (
              if_known o opc x w (go_by o opc cic (m (at + 2)) w (isup_read w.ss7 w.call m at len)))
      known none e = unknown w minus_one e (running-IsSafe r)
      known (some x) e =
          let f = isup_read-Ends w.ss7 w.call m at len in
          read _ (f.0) refl (f.1) (isup_read-timer w.ss7 w.call m at len)
