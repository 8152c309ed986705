-- ===== src/Isup/Fields/Reference.antt =====
-- The call reference in both networks.
use libss.Base.{
  ℕ, ◌+◌, ◌*◌, ◌/◌, ◌%◌, ◌^◌, ◌<◌, ◌≡◌, refl, inl, inr, true, false, Option, none, some, arith,
  ◌==◌, if◌then◌else◌, Bool-cases,
}
use libss.Mtp2.Transmit.{ansi}
use libss.Isup.Bytes.{Mem, store}
use libss.Isup.Call.{Call, Ss7, Arrives}
use libss.Isup.Fields.{call_ref_receive, call_ref_transmit, write_ident}

-- The bits of a point code in the network.
abbrev pub pc_mod : ℕ → ℕ
pc_mod switchtype = if switchtype == ansi then 2 ^ 24 else 2 ^ 14

three_bytes :
    (n : ℕ) → n < 2 ^ 24 → n % 2 ^ 8 + n / 2 ^ 8 % 2 ^ 8 * 2 ^ 8 + n / 2 ^ 16 % 2 ^ 8 * 2 ^ 16 ≡ n
three_bytes n h = omega arith

two_bytes : (n : ℕ) → n < 2 ^ 14 → n % 2 ^ 8 + n / 2 ^ 8 % 2 ^ 6 % 2 ^ 6 * 2 ^ 8 ≡ n
two_bytes n h = omega arith

module _ (m : Mem) (p ident pc : ℕ) where
  abbrev with_ident : Mem
  with_ident = store (write_ident m p ident) (p + 3) (pc % 2 ^ 8)

  abbrev ansi_bytes : Mem
  ansi_bytes = store (store with_ident (p + 4) (pc / 2 ^ 8 % 2 ^ 8)) (p + 5) (pc / 2 ^ 16 % 2 ^ 8)

  abbrev itu_bytes : Mem
  itu_bytes = store with_ident (p + 4) (pc / 2 ^ 8 % 2 ^ 6)

  ansi_ident :
      ident < 2 ^ 24
      → ansi_bytes p + ansi_bytes (p + 1) * 2 ^ 8 + ansi_bytes (p + 2) * 2 ^ 16 ≡ ident
  unfolding write_ident store
  ansi_ident h = ground (arith, three_bytes ident)

  ansi_pc :
      pc < 2 ^ 24
      → ansi_bytes (p + 3) + ansi_bytes (p + 4) * 2 ^ 8 + ansi_bytes (p + 5) * 2 ^ 16 ≡ pc
  unfolding store
  ansi_pc h = ground (arith, three_bytes pc)

  itu_ident :
      ident < 2 ^ 24 → itu_bytes p + itu_bytes (p + 1) * 2 ^ 8 + itu_bytes (p + 2) * 2 ^ 16 ≡ ident
  unfolding write_ident store
  itu_ident h = ground (arith, three_bytes ident)

  itu_pc : pc < 2 ^ 14 → itu_bytes (p + 3) + itu_bytes (p + 4) % 2 ^ 6 * 2 ^ 8 ≡ pc
  unfolding store
  itu_pc h = ground (arith, two_bytes pc)

module _ (ss7 : Ss7) (c c' : Call) (mt : ℕ) (m : Mem) (p len : ℕ) where
  abbrev ArrivesAs : Option Call → Type 0
  ArrivesAs o =
      Arrives (call_ref_transmit ss7 c mt m p len) m (λ b n. call_ref_receive ss7 c' mt b p n) o

  call_ref_absent : (c.call_ref.ident == 0) ≡ true → ArrivesAs none
  unfolding call_ref_transmit
  call_ref_absent e = (record { call = c; buf = m; size = 0 }, rw e, refl, refl)

  call_ref_ansi :
      (c.call_ref.ident == 0) ≡ false
      → (ss7.switchtype == ansi) ≡ true
      → c.call_ref.ident < 2 ^ 24
      → c.call_ref.pc < 2 ^ 24
      → ArrivesAs (some (record c' { call_ref = c.call_ref }))
  unfolding call_ref_transmit call_ref_receive
  call_ref_ansi e f hi hp = (
    record { call = c; buf = ansi_bytes m p c.call_ref.ident c.call_ref.pc; size = 6 },
    rw (e, f),
    omega arith,
    rw
        (
          f,
          ansi_ident m p c.call_ref.ident c.call_ref.pc hi,
          ansi_pc m p c.call_ref.ident c.call_ref.pc hp,
        )
        refl,
  )

  call_ref_itu :
      (c.call_ref.ident == 0) ≡ false
      → (ss7.switchtype == ansi) ≡ false
      → c.call_ref.ident < 2 ^ 24
      → c.call_ref.pc < 2 ^ 14
      → ArrivesAs (some (record c' { call_ref = c.call_ref }))
  unfolding call_ref_transmit call_ref_receive
  call_ref_itu e f hi hp = (
    record { call = c; buf = itu_bytes m p c.call_ref.ident c.call_ref.pc; size = 5 },
    rw (e, f),
    omega arith,
    rw
        (
          f,
          itu_ident m p c.call_ref.ident c.call_ref.pc hi,
          itu_pc m p c.call_ref.ident c.call_ref.pc hp,
        )
        refl,
  )

  -- A call reference with an identity of 24 bits and a point code of the network's width is left
  -- out where the identity is 0, and otherwise arrives as it is.
  pub call_ref-Arrives :
      c.call_ref.ident < 2 ^ 24
      → c.call_ref.pc < pc_mod ss7.switchtype
      → Arrives
          (call_ref_transmit ss7 c mt m p len)
          m
          (λ b n. call_ref_receive ss7 c' mt b p n)
          (if c.call_ref.ident == 0 then none else some (record c' { call_ref = c.call_ref }))
  call_ref-Arrives hi hp = elim (Bool-cases (c.call_ref.ident == 0)) [
    | inl e ↦ rw e (call_ref_absent e)
    | inr e ↦ elim (Bool-cases (ss7.switchtype == ansi)) [
      | inl f ↦ rw e (call_ref_ansi e f hi (rw f at hp))
      | inr f ↦ rw e (call_ref_itu e f hi (rw f at hp))
    ]
  ]
