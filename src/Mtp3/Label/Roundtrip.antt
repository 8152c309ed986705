-- ===== src/Mtp3/Label/Roundtrip.antt =====
-- `set_routinglabel` and `get_routinglabel` on one buffer.
use mathlib.Core.Path.{subst}
use libss.Base.{ℕ, ◌+◌, ◌*◌, ◌/◌, ◌%◌, ◌^◌, ◌<◌, ◌≤◌, ◌≡◌, refl, sym, if◌then◌else◌, arith, ◌==◌}
use libss.Base.Int.{pos}
use libss.Mtp2.Transmit.{itu, ansi}
use libss.Mtp3.Label.{RoutingLabel, get_routinglabel, set_ansi, set_itu, set_routinglabel}

-- The label fits the fields of its type.
pub data IsValid (rl : RoutingLabel) : Type 0 where
  of_ansi : rl.type ≡ ansi → rl.dpc < 2 ^ 24 → rl.opc < 2 ^ 24 → rl.sls < 2 ^ 8 → IsValid rl
  of_itu : rl.type ≡ itu → rl.dpc < 2 ^ 14 → rl.opc < 2 ^ 14 → rl.sls < 2 ^ 4 → IsValid rl

three_bytes :
    (n : ℕ) → n < 2 ^ 24 → n % 2 ^ 8 + n / 2 ^ 8 % 2 ^ 8 * 2 ^ 8 + n / 2 ^ 16 % 2 ^ 8 * 2 ^ 16 ≡ n
three_bytes n h = omega arith

itu_dpc :
    (d o : ℕ)
    → d < 2 ^ 14
    → (d % 2 ^ 8 + (d / 2 ^ 8 % 2 ^ 6 + o % 2 ^ 2 * 2 ^ 6) * 2 ^ 8) % 2 ^ 14 ≡ d
itu_dpc d o h = omega arith

itu_opc :
    (d o s : ℕ)
    → o < 2 ^ 14
    → ((d / 2 ^ 8 % 2 ^ 6 + o % 2 ^ 2 * 2 ^ 6) / 2 ^ 6
          + o / 2 ^ 2 % 2 ^ 8 * 2 ^ 2
          + (o / 2 ^ 10 % 2 ^ 4 + s % 2 ^ 4 * 2 ^ 4) * 2 ^ 10)
        % 2 ^ 14
      ≡ o
itu_opc d o s h = omega arith

itu_sls : (o s : ℕ) → s < 2 ^ 4 → (o / 2 ^ 10 % 2 ^ 4 + s % 2 ^ 4 * 2 ^ 4) / 2 ^ 4 ≡ s
itu_sls o s h = omega arith

abbrev written : (ℕ → ℕ) → RoutingLabel → ℕ → ℕ
written buf rl = (set_routinglabel buf rl).0

-- A label of `n` bytes, and what the buffer reads as after it is written.
pub record Roundtrips (buf : ℕ → ℕ) (rl : RoutingLabel) (n : ℕ) : Type 0 where
  pub size : (set_routinglabel buf rl).1 ≡ pos n
  pub back : get_routinglabel rl.type (written buf rl) ≡ (rl, pos n)
  pub rest : (j : ℕ) → n ≤ j → written buf rl j ≡ buf j

rest_ansi : (buf : ℕ → ℕ) (rl : RoutingLabel) (j : ℕ) → 7 ≤ j → set_ansi buf rl j ≡ buf j
unfolding set_ansi
rest_ansi buf rl j h = ground arith

rest_itu : (buf : ℕ → ℕ) (rl : RoutingLabel) (j : ℕ) → 4 ≤ j → set_itu buf rl j ≡ buf j
unfolding set_itu
rest_itu buf rl j h = ground arith

read_ansi :
    (buf : ℕ → ℕ) (d o s : ℕ)
    → d < 2 ^ 24
    → o < 2 ^ 24
    → s < 2 ^ 8
    → Roundtrips buf (record { type = ansi; dpc = d; opc = o; sls = s }) 7
unfolding set_routinglabel get_routinglabel
read_ansi buf d o s hd ho hs = record {
  size = refl;
  back = rw (three_bytes d hd, three_bytes o ho, sls_byte);
  rest = rest_ansi buf (record { type = ansi; dpc = d; opc = o; sls = s });
}
  where
    sls_byte : s % 2 ^ 8 ≡ s
    sls_byte = omega arith

read_itu :
    (buf : ℕ → ℕ) (d o s : ℕ)
    → d < 2 ^ 14
    → o < 2 ^ 14
    → s < 2 ^ 4
    → Roundtrips buf (record { type = itu; dpc = d; opc = o; sls = s }) 4
unfolding set_routinglabel get_routinglabel
read_itu buf d o s hd ho hs = record {
  size = refl;
  back = rw (itu_dpc d o hd, itu_opc d o s ho, itu_sls o s hs);
  rest = rest_itu buf (record { type = itu; dpc = d; opc = o; sls = s });
}

-- The bytes of a label.
abbrev pub label_size : ℕ → ℕ
label_size type = if type == ansi then 7 else 4

-- A label that fits the fields of its type is written in 7 bytes for ANSI and in 4 for ITU; reading
-- the buffer gives the label and its size back, and no byte behind it is changed.
pub set_routinglabel-Roundtrips :
    (buf : ℕ → ℕ) (rl : RoutingLabel) → IsValid rl → Roundtrips buf rl (label_size rl.type)
set_routinglabel-Roundtrips buf rl (of_ansi e hd ho hs) =
    subst (λ t. Roundtrips buf (record rl { type = t }) (label_size t)) (sym e)
      (read_ansi buf rl.dpc rl.opc rl.sls hd ho hs)
set_routinglabel-Roundtrips buf rl (of_itu e hd ho hs) =
    subst (λ t. Roundtrips buf (record rl { type = t }) (label_size t)) (sym e)
      (read_itu buf rl.dpc rl.opc rl.sls hd ho hs)
