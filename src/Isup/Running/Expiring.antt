-- ===== src/Isup/Running/Expiring.antt =====
-- The timers of a call behind the expiry of one of them.
use libss.Base.{ℕ, ◌≡◌, refl, true, List, [], ◌∷◌, ◌==◌, set, ltb}
use libss.Base.Int.{pos, minus_one}
use libss.Isup.Messages.{rel_params, greset_params, cicgroup_params, empty_params}
use libss.Isup.World.{CallWorld, Outside, set_call}
use libss.Isup.Incoming.{hangup_send_rel}
use libss.Isup.Expiry.{
  expired, start_unless, cgb_again, cgu_again, grs_again, on_t1, on_t16, hang_up, on_t17, on_t5,
  on_t10, send_again, on_t18, on_t19, on_t22, on_t23, on_t20, on_t21, expiries, expiry_of,
  isup_timer_expiry,
}
use libss.Isup.Ownership.{IsOwned, isup_max_timers}
use libss.Isup.Running.{
  IsRunning, IsSafe, IsGentle, Runs, running-IsSafe, if_IsSafe, if_Runs, flag-Runs, unflag-Runs,
  start-Runs, stop-Runs, stop_all-Runs, send-IsRunning, event-IsSafe,
}
use libss.Isup.Running.Sending.{isup_rel-Saves, isup_rsc-Saves}

-- The slot of timer `t` of a call of the list has just been emptied, and the timer still names it.
pub record IsFired (t : ℕ) (w : CallWorld) : Type 0 where
  pub owned : IsOwned w.sched (set w.call.timer t minus_one)
  pub alive : w.live ≡ true

-- What ends with a call of the list, or with one that was freed.
abbrev Ends : (CallWorld → CallWorld) → Type 0
Ends f = (w : CallWorld) → IsRunning w → IsSafe (f w)

start_unless-Runs :
    (other t expiring : ℕ) → ltb t isup_max_timers ≡ true → Runs (start_unless other t expiring)
start_unless-Runs other t expiring h w r = if_Runs (expiring == other) r (start-Runs t h w r)

module _ (o : Outside) (g : IsGentle o) where
  on_t1-Runs : Runs (on_t1 o)
  unfolding on_t1
  on_t1-Runs w r = start-Runs 1 refl _ (send-IsRunning o g 0x0c rel_params w r)

  on_t16-Runs : Runs (on_t16 o)
  unfolding on_t16
  on_t16-Runs w r = start-Runs 16 refl _ (send-IsRunning o g 0x12 empty_params _ (flag-Runs _ w r))

  hang_up-Ends : (cause : ℕ) → Ends (hang_up o cause)
  unfolding hang_up
  hang_up-Ends cause w r = g.hangup w w.call.cic w.call.dpc cause hangup_send_rel r

  on_t17-Runs : Runs (on_t17 o)
  unfolding on_t17
  on_t17-Runs w r =
      start-Runs 17 refl _
        (send-IsRunning o g 0x12 empty_params _ (flag-Runs _ _ (stop_all-Runs w r)))

  on_t5-Runs : Runs (on_t5 o)
  unfolding on_t5
  on_t5-Runs w r = on_t17-Runs _ (g.notinservice w w.call.cic w.call.dpc r)

  on_t10-Ends : Ends (on_t10 o)
  unfolding on_t10
  on_t10-Ends w r = event-IsSafe o g _ _ (λ v q. q) w r

  send_again-Runs : (t message : ℕ) → ltb t isup_max_timers ≡ true → Runs (send_again o t message)
  unfolding send_again
  send_again-Runs t message h w r = start-Runs t h _ (send-IsRunning o g message empty_params w r)

  on_t18-Runs : (expiring : ℕ) → Runs (on_t18 o expiring)
  unfolding on_t18
  on_t18-Runs expiring w r =
      let s = start_unless-Runs 19 18 expiring refl w r in
      send-IsRunning o g 0x18 cicgroup_params (set_call cgb_again (start_unless 19 18 expiring w))
        (record { owned = s.owned; alive = s.alive })

  on_t19-Runs : Runs (on_t19 o)
  unfolding on_t19
  on_t19-Runs w r = on_t18-Runs 19 _ (start-Runs 19 refl _ (stop-Runs 18 w r))

  on_t22-Runs : (expiring : ℕ) → Runs (on_t22 o expiring)
  unfolding on_t22
  on_t22-Runs expiring w r =
      let s = start_unless-Runs 23 22 expiring refl w r in
      send-IsRunning o g 0x17 greset_params (set_call grs_again (start_unless 23 22 expiring w))
        (record { owned = s.owned; alive = s.alive })

  on_t23-Runs : (expiring : ℕ) → Runs (on_t23 o expiring)
  unfolding on_t23
  on_t23-Runs expiring w r = on_t22-Runs expiring _ (start-Runs 23 refl _ (stop-Runs 22 w r))

  on_t20-Runs : (expiring : ℕ) → Runs (on_t20 o expiring)
  unfolding on_t20
  on_t20-Runs expiring w r =
      let s = start_unless-Runs 21 20 expiring refl w r in
      on_t23-Runs expiring _ (
        send-IsRunning o g 0x19 cicgroup_params (set_call cgu_again (start_unless 21 20 expiring w))
          (record { owned = s.owned; alive = s.alive }))

  on_t21-Runs : Runs (on_t21 o)
  unfolding on_t21
  on_t21-Runs w r = on_t20-Runs 21 _ (start-Runs 21 refl _ (stop-Runs 20 w r))

  Runs-Ends : (f : CallWorld → CallWorld) → Runs f → Ends f
  Runs-Ends f h w r = running-IsSafe (h w r)

  abbrev AllEnd : List (ℕ × (CallWorld → CallWorld)) → Type 0
  AllEnd [] = Unit {0}
  AllEnd (e ∷ es) = Ends (e.1) × AllEnd es

  expiry_of-Ends :
      (es : List (ℕ × (CallWorld → CallWorld))) (t : ℕ) → AllEnd es → Ends (expiry_of o es t)
  expiry_of-Ends [] t a w r = running-IsSafe r
  expiry_of-Ends (e ∷ es) t a w r =
      if_IsSafe (e.0 == t) (λ q. a.0 w r) (λ q. expiry_of-Ends es t (a.1) w r)

  expiries-AllEnd : AllEnd (expiries o)
  unfolding expiries
  expiries-AllEnd = (
    Runs-Ends _ on_t1-Runs,
    (
      Runs-Ends _ on_t16-Runs,
      (
        hang_up-Ends 16,
        (
          hang_up-Ends 16,
          (
            hang_up-Ends 31,
            (
              isup_rel-Saves o g (pos 41),
              (
                Runs-Ends _ on_t5-Runs,
                (
                  Runs-Ends _ on_t17-Runs,
                  (
                    on_t10-Ends,
                    (
                      Runs-Ends _ (send_again-Runs 12 0x13 refl),
                      (
                        (λ w r. Runs-Ends _ (send_again-Runs 13 0x13 refl) _ (stop-Runs 12 w r)),
                        (
                          Runs-Ends _ (send_again-Runs 14 0x14 refl),
                          (
                            (λ w r.
                                Runs-Ends _ (send_again-Runs 15 0x14 refl) _ (stop-Runs 14 w r)),
                            (
                              Runs-Ends _ on_t19-Runs,
                              (
                                Runs-Ends _ (on_t18-Runs 18),
                                (
                                  Runs-Ends _ on_t21-Runs,
                                  (
                                    Runs-Ends _ (on_t20-Runs 20),
                                    (
                                      Runs-Ends _ (on_t23-Runs 23),
                                      (
                                        Runs-Ends _ (on_t22-Runs 22),
                                        (
                                          isup_rsc-Saves o g,
                                          (
                                            (λ w r.
                                                isup_rel-Saves o g (pos 16) _ (unflag-Runs _ w r)),
                                            (isup_rel-Saves o g (pos 28), tt),
                                          ),
                                        ),
                                      ),
                                    ),
                                  ),
                                ),
                              ),
                            ),
                          ),
                        ),
                      ),
                    ),
                  ),
                ),
              ),
            ),
          ),
        ),
      ),
    ),
  )

  -- The expiry of any timer of a call, where the slot of the timer was emptied and the functions
  -- outside are gentle: the same as after a message.
  pub isup_timer_expiry-IsSafe :
      (t : ℕ) (w : CallWorld) → IsFired t w → IsSafe (isup_timer_expiry o t w)
  unfolding isup_timer_expiry
  isup_timer_expiry-IsSafe t w f =
      expiry_of-Ends (expiries o) t expiries-AllEnd (expired t w)
        (record { owned = f.owned; alive = f.alive })
