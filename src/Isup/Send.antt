-- ===== src/Isup/Send.antt =====
-- `isup_send_message`. Positions are counted from the user part of the message, which begins with the
-- routing label. In place of the call of `mtp3_transmit`, the model gives its arguments.
pub mod Kept
use libss.Base.{
  ℕ, zero, suc, ◌+◌, ◌-◌, ◌/◌, ◌%◌, Bool, false, ◌||◌, Option, none, some, List, [], ◌∷◌,
  if◌then◌else◌, ltb, ◌==◌,
}
use libss.Base.Int.{ℤ, pos, minus, to_ℕ}
use libss.Mtp2.Transmit.{itu}
use libss.Mtp3.Label.{RoutingLabel, set_routinglabel}
use libss.Isup.Bytes.{Mem, store}
use libss.Isup.Call.{Call, Ss7}
use libss.Isup.Parms.{Result, refused, ok, ◌>>=◌, ParmType, fixed, variable, optional, do_parm_tx}
use libss.Isup.Messages.{MessageData, message_of}

-- `len`, the room left, and `offset`, behind the last byte written, from the start of the data.
pub record Building : Type 0 where
  pub call : Call
  pub buf : Mem
  pub len : ℤ
  pub offset : ℕ

-- The arguments of mtp3_transmit. `size` is the length of the user part.
pub record Outgoing : Type 0 where
  pub call : Call
  pub rl : RoutingLabel
  pub priority : ℤ
  pub buf : Mem
  pub size : ℕ

-- The data of the message begin at `start`. No transmit function in the lists of parameters looks at
-- the room left, which is why its sign does not matter.
unfoldable pub add_parm : Ss7 → ℕ → ℕ → ParmType → ℕ → Building → Result (Building × ℕ)
add_parm ss7 message start parmtype parm b =
    do_parm_tx ss7 b.call message parm b.buf (start + b.offset) (to_ℕ b.len) parmtype >>= λ w. ok (
      record { call = w.call; buf = w.buf; len = minus b.len w.size; offset = b.offset + w.size },
      w.size,
    )

-- Each of these gives the parameters that are left. The list ends with -1, for which do_parm finds
-- no entry.
unfoldable pub add_fixed : Ss7 → ℕ → ℕ → ℕ → List ℕ → Building → Result (Building × List ℕ)
add_fixed ss7 message start zero parms b = ok (b, parms)
add_fixed ss7 message start (suc n) [] b = refused
add_fixed ss7 message start (suc n) (parm ∷ parms) b =
    add_parm ss7 message start fixed parm b >>= λ r. add_fixed ss7 message start n parms (r.0)

-- The pointer at `var` gives the distance from itself to the parameter.
unfoldable pub add_variable : Ss7 → ℕ → ℕ → ℕ → ℕ → List ℕ → Building → Result (Building × List ℕ)
add_variable ss7 message start var zero parms b = ok (b, parms)
add_variable ss7 message start var (suc n) [] b = refused
add_variable ss7 message start var (suc n) (parm ∷ parms) b =
    let b' = record b { buf = store b.buf (start + var) (b.offset - var) } in
    add_parm ss7 message start variable parm b' >>= λ r.
    add_variable ss7 message start (var + 1) n parms (r.0)

-- `added`: one of them wrote something.
unfoldable pub add_optional : Ss7 → ℕ → ℕ → List ℕ → Bool → Building → Result (Building × Bool)
add_optional ss7 message start [] added b = ok (b, added)
add_optional ss7 message start (parm ∷ parms) added b =
    add_parm ss7 message start optional parm b >>= λ r.
    add_optional ss7 message start parms (added || ltb 0 (r.1)) (r.0)

-- The pointer is at `at`, and the list ends with a zero byte.
unfoldable pub end_optional : ℕ → ℕ → ℕ → Building × Bool → Building
end_optional start at begins (b, added) =
    if added
    then record b {
      buf = store (store b.buf (start + at) (begins - at)) (start + b.offset) 0;
      offset = b.offset + 1;
    }
    else record b { buf = store b.buf (start + at) 0 }

unfoldable pub add_parms : Ss7 → ℕ → MessageData → List ℕ → Building → Result Building
add_parms ss7 start x parms b =
    let message = x.messagetype in
    let vars = x.mand_var_params in
    let extra = if x.opt_params == 0 then vars else vars + 1 in
    add_fixed ss7 message start x.mand_fixed_params parms b >>= λ r.
    add_variable ss7 message start (r.0.offset) vars (r.1)
      (record (r.0) { offset = r.0.offset + extra; len = minus (r.0.len) extra })
    >>= λ s.
        if x.opt_params == 0
        then ok (s.0)
        else add_optional ss7 message start (s.1) false (s.0) >>= λ t.
            ok (end_optional start (r.0.offset + vars) (s.0.offset) t)

unfoldable pub label : Ss7 → Call → RoutingLabel
label ss7 c = record { type = ss7.switchtype; dpc = c.dpc; opc = ss7.pc; sls = c.sls }

-- The circuit and the type at `at`.
unfoldable pub put_header : Ss7 → Call → ℕ → Mem → ℕ → Mem
put_header ss7 c messagetype m at =
    let high = if ss7.switchtype == itu then 16 else 64 in
    let m₁ = store m at (c.cic % 256) in
    let m₂ = store m₁ (at + 1) (c.cic / 256 % high) in store m₂ (at + 2) messagetype

-- For the two types of network that ss7_new accepts, the label has a length.
abbrev rlsize : Ss7 → Call → Mem → ℕ
rlsize ss7 c m = to_ℕ ((set_routinglabel m (label ss7 c)).1)

abbrev pub send_as : Ss7 → Call → ℕ → List ℕ → Mem → ℕ → Option MessageData → Result Outgoing
send_as ss7 c messagetype parms m room none = refused
send_as ss7 c messagetype parms m room (some x) =
    let n = rlsize ss7 c m in
    let head = put_header ss7 c messagetype ((set_routinglabel m (label ss7 c)).0) n in
    add_parms ss7 (n + 3) x parms (record { call = c; buf = head; len = pos room; offset = 0 })
    >>= λ b. ok (record {
      call = b.call;
      rl = label ss7 c;
      priority = x.ansi_priority;
      buf = b.buf;
      size = b.offset + n + 3;
    })

-- `msg` is what ss7_msg_new gave, and `room` is sizeof(struct ss7_msg).
unfoldable pub isup_send_message : Ss7 → Call → ℕ → List ℕ → Option Mem → ℕ → Result Outgoing
isup_send_message ss7 c messagetype parms none room = refused
isup_send_message ss7 c messagetype parms (some m) room =
    send_as ss7 c messagetype parms m room (message_of ss7.switchtype messagetype)
