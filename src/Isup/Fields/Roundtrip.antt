-- ===== src/Isup/Fields/Roundtrip.antt =====
-- Redirection, call reference and closed user group, from the sending to the receiving call.
use libss.Base.{
  ℕ, ◌+◌, ◌*◌, ◌/◌, ◌%◌, ◌<◌, ◌≡◌, refl, inl, inr, true, false, none, some, arith, ◌==◌,
  if◌then◌else◌, Bool-cases,
}
use libss.Isup.Bytes.{Mem, store, store_first, store_second}
use libss.Isup.Call.{Redirection, Call, Ss7, Arrives}
use libss.Isup.Fields.{redirection_info_receive, redirection_info_transmit}

-- The values have the widths of their fields in the message.
pub record IsRedirection (r : Redirection) : Type 0 where
  pub ind : r.ind < 8
  pub orig_reas : r.orig_reas < 16
  pub counter : r.counter < 8
  pub reas : r.reas < 16

module _ (ss7 ss7' : Ss7) (c c' : Call) (mt : ℕ) (m : Mem) (p len : ℕ) where
  redirection_back :
      (b : Mem)
      → b p ≡ c.redirection.ind + c.redirection.orig_reas * 16
      → b (p + 1) ≡ c.redirection.counter + c.redirection.reas * 16
      → IsRedirection c.redirection
      → redirection_info_receive ss7' c' mt b p 2
        ≡ some (record c' { redirection = record c.redirection { info = 1 } }, 2)
  unfolding redirection_info_receive
  redirection_back b e f v = rw (e, f, ind, orig, counter, reas) refl
    where
      ind : (c.redirection.ind + c.redirection.orig_reas * 16) % 8 ≡ c.redirection.ind
      ind = omega (arith, v.ind)

      orig : (c.redirection.ind + c.redirection.orig_reas * 16) / 16 % 16 ≡ c.redirection.orig_reas
      orig = omega (arith, v.ind, v.orig_reas)

      counter : (c.redirection.counter + c.redirection.reas * 16) % 8 ≡ c.redirection.counter
      counter = omega (arith, v.counter)

      reas : (c.redirection.counter + c.redirection.reas * 16) / 16 % 16 ≡ c.redirection.reas
      reas = omega (arith, v.counter, v.reas)

  redirection_present :
      IsRedirection c.redirection
      → (c.redirection.info == 0) ≡ false
      → Arrives
          (redirection_info_transmit ss7 c mt m p len)
          m
          (λ b n. redirection_info_receive ss7' c' mt b p n)
          (some (record c' { redirection = record c.redirection { info = 1 } }))
  unfolding redirection_info_transmit
  redirection_present v e = (
    record {
      call = c;
      buf =
          store (store m p (c.redirection.ind % 8 + c.redirection.orig_reas % 16 * 16)) (p + 1)
            (c.redirection.counter % 8 + c.redirection.reas % 16 * 16);
      size = 2;
    },
    rw e,
    omega arith,
    redirection_back _
        (store_first m p _ _ _ (omega (arith, v.ind, v.orig_reas))
          (omega (arith, v.ind, v.orig_reas)))
        (store_second _ p _ _ (omega (arith, v.counter, v.reas)) (omega (arith, v.counter, v.reas)))
        v,
  )

  redirection_absent :
      (c.redirection.info == 0) ≡ true
      → Arrives
          (redirection_info_transmit ss7 c mt m p len)
          m
          (λ b n. redirection_info_receive ss7' c' mt b p n)
          none
  unfolding redirection_info_transmit
  redirection_absent e = (record { call = c; buf = m; size = 0 }, rw e, refl, refl)

  -- Redirection information with values of their widths is left out where the call has none, and
  -- otherwise arrives as it is.
  pub redirection_info-Arrives :
      IsRedirection c.redirection
      → Arrives
          (redirection_info_transmit ss7 c mt m p len)
          m
          (λ b n. redirection_info_receive ss7' c' mt b p n)
          (if c.redirection.info == 0
            then none
            else some (record c' { redirection = record c.redirection { info = 1 } }))
  redirection_info-Arrives v = elim (Bool-cases (c.redirection.info == 0)) [
    | inl e ↦ rw e (redirection_absent e)
    | inr e ↦ rw e (redirection_present v e)
  ]
