-- ===== src/Mtp3/Label.antt =====
-- The routing label at the start of a level 3 message, and the fields of the service information
-- octet. A buffer is its bytes by their index. The fields joined by `|` do
-- not overlap, so the union is a sum; a mask of low bits is a remainder and a shift a power of two.
pub mod Roundtrip
mod Tests
use libss.Base.{ℕ, ◌+◌, ◌*◌, ◌/◌, ◌%◌, ◌^◌, Bool, if◌then◌else◌, ◌==◌}
use libss.Base.Int.{ℤ, pos, minus_one}
use libss.Mtp2.Transmit.{itu, ansi}

-- struct routing_label; `type` is the switch type.
pub record RoutingLabel : Type 0 where
  pub type : ℕ
  pub dpc : ℕ
  pub opc : ℕ
  pub sls : ℕ

-- `m[i] = v`
unfoldable pub write : (ℕ → ℕ) → ℕ → ℕ → ℕ → ℕ
write m i v = λ j. if j == i then v else m j

unfoldable pub get_routinglabel : ℕ → (ℕ → ℕ) → RoutingLabel × ℤ
get_routinglabel switchtype buf =
    if switchtype == ansi
    then (
      record {
        type = switchtype;
        dpc = buf 0 + buf 1 * 2 ^ 8 + buf 2 * 2 ^ 16;
        opc = buf 3 + buf 4 * 2 ^ 8 + buf 5 * 2 ^ 16;
        sls = buf 6;
      },
      pos 7,
    )
    else (
      record {
        type = switchtype;
        dpc = (buf 0 + buf 1 * 2 ^ 8) % 2 ^ 14;
        opc = (buf 1 / 2 ^ 6 + buf 2 * 2 ^ 2 + buf 3 * 2 ^ 10) % 2 ^ 14;
        sls = buf 3 / 2 ^ 4;
      },
      pos 4,
    )

unfoldable pub set_ansi : (ℕ → ℕ) → RoutingLabel → ℕ → ℕ
unfolding write
set_ansi buf rl =
    let b₀ = write buf 0 (rl.dpc % 2 ^ 8) in
    let b₁ = write b₀ 1 (rl.dpc / 2 ^ 8 % 2 ^ 8) in
    let b₂ = write b₁ 2 (rl.dpc / 2 ^ 16 % 2 ^ 8) in
    let b₃ = write b₂ 3 (rl.opc % 2 ^ 8) in
    let b₄ = write b₃ 4 (rl.opc / 2 ^ 8 % 2 ^ 8) in
    let b₅ = write b₄ 5 (rl.opc / 2 ^ 16 % 2 ^ 8) in write b₅ 6 (rl.sls % 2 ^ 8)

unfoldable pub set_itu : (ℕ → ℕ) → RoutingLabel → ℕ → ℕ
unfolding write
set_itu buf rl =
    let b₀ = write buf 0 (rl.dpc % 2 ^ 8) in
    let b₁ = write b₀ 1 (rl.dpc / 2 ^ 8 % 2 ^ 6 + rl.opc % 2 ^ 2 * 2 ^ 6) in
    let b₂ = write b₁ 2 (rl.opc / 2 ^ 2 % 2 ^ 8) in
    write b₂ 3 (rl.opc / 2 ^ 10 % 2 ^ 4 + rl.sls % 2 ^ 4 * 2 ^ 4)

unfoldable pub set_routinglabel : (ℕ → ℕ) → RoutingLabel → (ℕ → ℕ) × ℤ
unfolding set_ansi set_itu
set_routinglabel buf rl =
    if rl.type == ansi
    then (set_ansi buf rl, pos 7)
    else if rl.type == itu
    then (set_itu buf rl, pos 4)
    else (buf, minus_one)

-- `ss7->sls` after the call, and the number returned.
unfoldable pub ansi_sls_next : ℕ → ℕ × ℕ
ansi_sls_next sls = ((sls + 1) % 256, sls)

unfoldable pub get_userpart : ℕ → ℕ
get_userpart sio = sio % 2 ^ 4

unfoldable pub get_ni : ℕ → ℕ
get_ni sio = sio / 2 ^ 6 % 2 ^ 2

unfoldable pub get_priority : ℕ → ℕ
get_priority sio = sio / 2 ^ 4 % 2 ^ 2
