-- ===== src/Isup/Release.antt =====
-- A message that releases a call, from `isup_send_message` to `isup_receive`.
use libss.Base.{
  ℕ, ◌+◌, ◌-◌, ◌*◌, ◌<◌, ◌≡◌, inl, inr, ◌⊎◌, some, arith, ◌==◌, if◌then◌else◌, Bool-cases, ◌^◌,
}
use libss.Base.Int.{pos}
use libss.Mtp2.Transmit.{itu, ansi}
use libss.Mtp3.Label.{RoutingLabel, set_ansi, set_itu, set_routinglabel}
use libss.Isup.Bytes.{Mem, store, or_top}
use libss.Isup.Call.{Call, Ss7}
use libss.Isup.Indicators.{cause_receive, cause_transmit}
use libss.Isup.Indicators.Roundtrip.{IsCause, or_location, cause_back}
use libss.Isup.Parms.{
  ok, do_parm_tx, do_parm_rx, send_by, receive_by, transmit_of, receive_of, parms,
}
use libss.Isup.Messages.{
  MessageData, messages, find_message, ansi_exception, message_of, received_params, rel, rel_params,
}
use libss.Isup.Send.{
  Outgoing, label, put_header, add_parm, add_fixed, add_variable, add_optional, end_optional,
  add_parms, isup_send_message,
}
use libss.Isup.Receive.{
  get_cic, read_fixed, read_variable, read_mandatory, enter_optional, isup_read,
}

abbrev release : MessageData
release = record {
  messagetype = rel;
  mand_fixed_params = 0;
  mand_var_params = 1;
  opt_params = 1;
  ansi_priority = pos 1;
  param_list = rel_params;
}

message_of-rel : (s : ℕ) → message_of s rel ≡ some release
unfolding message_of find_message messages ansi_exception
message_of-rel s = elim (Bool-cases (s == ansi)) [ inl e ↦ rw e | inr e ↦ rw e ]

received_params-release : (s : ℕ) → received_params s release ≡ rel_params
unfolding received_params
received_params-release s = elim (Bool-cases (s == ansi)) [ inl e ↦ rw e | inr e ↦ rw e ]

read_release :
    (ss7 : Ss7) (c d : Call) (b : Mem) (n : ℕ)
    → b (n + 2) ≡ rel
    → b (n + 3) ≡ 2
    → b (n + 3 + 1) ≡ 0
    → b (n + 3 + 2) ≡ 2
    → cause_receive ss7 c rel b (n + 3 + 2 + 1) 2 ≡ some (d, 2)
    → isup_read ss7 c b n 8 ≡ some (ok d)
unfolding isup_read read_mandatory read_fixed read_variable do_parm_rx receive_of parms receive_by
    enter_optional
read_release ss7 c d b n e₂ e₃ e₄ e₅ h =
    rw (e₂, message_of-rel ss7.switchtype, received_params-release ss7.switchtype, e₃, e₅, h, e₄)

-- The circuits that the width of the field can name.
abbrev circuits : Ss7 → ℕ
circuits ss7 = if ss7.switchtype == itu then 2 ^ 12 else 2 ^ 14

size : (n : ℕ) → 5 + n + 3 - n ≡ 8
size n = omega arith

abbrev built : Ss7 → Call → Mem → ℕ → Mem
built ss7 c m n =
    let b = store (put_header ss7 c rel m n) (n + 3 + 0) 2 in
    let f = store b (n + 3 + 2 + 1) (128 + c.cause.code * 32 + c.cause.loc) in
    store (store (store f (n + 3 + 2 + 1 + 1) (128 + c.cause.cause)) (n + 3 + 2) 2) (n + 3 + 1) 0

send_release :
    (ss7 : Ss7) (c : Call) (m b : Mem) (n room : ℕ)
    → set_routinglabel m (label ss7 c) ≡ (b, pos n)
    → IsCause c.cause
    → isup_send_message ss7 c rel rel_params (some m) room
      ≡ ok (record {
        call = c;
        rl = label ss7 c;
        priority = pos 1;
        buf = built ss7 c b n;
        size = 5 + n + 3;
      })
unfolding isup_send_message add_parms add_fixed add_variable add_parm add_optional end_optional
    do_parm_tx transmit_of parms send_by cause_transmit
send_release ss7 c m b n room e v = rw (
  message_of-rel ss7.switchtype,
  e,
  or_location c.cause.code c.cause.loc (v.code) (v.loc),
  or_top 1 c.cause.cause (omega arith) (v.cause),
)

module _ (ss7 : Ss7) (c : Call) (b : Mem) (n : ℕ) where
  at_type : built ss7 c b n (n + 2) ≡ rel
  unfolding store put_header
  at_type = ground arith

  at_pointer : built ss7 c b n (n + 3) ≡ 2
  unfolding store put_header
  at_pointer = ground arith

  at_options : built ss7 c b n (n + 3 + 1) ≡ 0
  unfolding store put_header
  at_options = ground arith

  at_length : built ss7 c b n (n + 3 + 2) ≡ 2
  unfolding store put_header
  at_length = ground arith

  at_location :
      IsCause c.cause → built ss7 c b n (n + 3 + 2 + 1) ≡ 128 + c.cause.code * 32 + c.cause.loc
  unfolding store put_header
  at_location v = ground (arith, v.code, v.loc)

  at_cause : IsCause c.cause → built ss7 c b n (n + 3 + 2 + 1 + 1) ≡ 128 + c.cause.cause
  unfolding store put_header
  at_cause v = ground (arith, v.cause)

  at_label : (j : ℕ) → j < n → built ss7 c b n j ≡ b j
  unfolding store put_header
  at_label j h = ground arith

  at_circuit :
      (ss7' : Ss7)
      → ss7'.switchtype ≡ ss7.switchtype
      → c.cic < circuits ss7
      → get_cic ss7' (built ss7 c b n) n ≡ c.cic
  unfolding store put_header get_cic
  at_circuit ss7' e h = elim (Bool-cases (ss7.switchtype == itu)) [
    | inl f ↦ rw (e, f) (ground arith)
    | inr f ↦ rw (e, f) (ground arith)
  ]

-- A message with a label of `n` bytes, and the call that the other side has read it into.
pub record IsReleased (ss7 ss7' : Ss7) (c c' : Call) (m : Mem) (room n : ℕ) : Type 0 where
  pub message : Outgoing
  pub sent : isup_send_message ss7 c rel rel_params (some m) room ≡ ok message
  pub label : (j : ℕ) → j < n → message.buf j ≡ (set_routinglabel m (label ss7 c)).0 j
  pub circuit : get_cic ss7' message.buf n ≡ c.cic
  pub read :
      isup_read ss7' c' message.buf n (message.size - n) ≡ some (ok (record c' { cause = c.cause }))

released :
    (ss7 ss7' : Ss7) (c c' : Call) (m b : Mem) (n room : ℕ)
    → set_routinglabel m (label ss7 c) ≡ (b, pos n)
    → ss7'.switchtype ≡ ss7.switchtype
    → c.cic < circuits ss7
    → IsCause c.cause
    → IsReleased ss7 ss7' c c' m room n
released ss7 ss7' c c' m b n room e s h v = record {
  message = _;
  sent = send_release ss7 c m b n room e v;
  label = λ j l. rw e (at_label ss7 c b n j l);
  circuit = at_circuit ss7 c b n ss7' s h;
  read = rw (size n) (
      read_release ss7' c' _ _ n (at_type ss7 c b n) (at_pointer ss7 c b n) (at_options ss7 c b n)
        (at_length ss7 c b n)
        (cause_back ss7' ss7' c c' rel b (n + 3 + 2 + 1) 0 _ (at_location ss7 c b n v)
          (at_cause ss7 c b n v) v));
}

-- Of the routing label.
unfoldable pub label_size : ℕ → ℕ
label_size switchtype = if switchtype == itu then 4 else 7

of_itu : {s : ℕ} → s ≡ itu → label_size s ≡ 4
unfolding label_size
of_itu e = rw e

of_ansi : {s : ℕ} → s ≡ ansi → label_size s ≡ 7
unfolding label_size
of_ansi e = rw e

written_itu :
    (m : Mem) (rl : RoutingLabel) → rl.type ≡ itu → set_routinglabel m rl ≡ (set_itu m rl, pos 4)
unfolding set_routinglabel
written_itu m rl e = rw e

written_ansi :
    (m : Mem) (rl : RoutingLabel) → rl.type ≡ ansi → set_routinglabel m rl ≡ (set_ansi m rl, pos 7)
unfolding set_routinglabel
written_ansi m rl e = rw e

-- For either network, a circuit of its width and a cause with values of their widths: the release
-- is sent, its label and its circuit are those of the call, and the other side, which finds its own
-- call for them, reads the message into it with the cause and nothing else changed.
pub isup_send_message-IsReleased :
    (ss7 ss7' : Ss7) (c c' : Call) (m : Mem) (room : ℕ)
    → (ss7.switchtype ≡ itu) ⊎ (ss7.switchtype ≡ ansi)
    → ss7'.switchtype ≡ ss7.switchtype
    → c.cic < circuits ss7
    → IsCause c.cause
    → IsReleased ss7 ss7' c c' m room (label_size ss7.switchtype)
unfolding label
isup_send_message-IsReleased ss7 ss7' c c' m room (inl e) s h v =
    rw (of_itu e) (released ss7 ss7' c c' m _ 4 room (written_itu m (label ss7 c) e) s h v)
isup_send_message-IsReleased ss7 ss7' c c' m room (inr e) s h v =
    rw (of_ansi e) (released ss7 ss7' c c' m _ 7 room (written_ansi m (label ss7 c) e) s h v)
