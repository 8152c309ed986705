-- ===== src/Mtp2/Transmit/Fsn.antt =====
-- The sequence numbers in `tx_buf`, branch by branch of `mtp2_transmit`.
use mathlib.Core.Path.{subst}
use mathlib.Core.Option.{some-injective}
use libss.Base.{
  ℕ, ◌+◌, ◌%◌, ◌<◌, ◌≡◌, refl, sym, ◌∙◌, Option, none, some, List, [], ◌∷◌, arith, Option-cases,
  inl, inr,
}
use libss.Base.Int.{ℤ}
use libss.Mtp2.Types.{Msg, Link, World}
use libss.Mtp2.Buffers.{reset_mtp, start_t7, add_txbuf, update_retransmit_pos, init_mtp2_header}
use libss.Mtp2.Receive.{mtp2_dump}
use libss.Mtp2.Receive.Acks.{Consecutive}
use libss.Mtp2.Transmit.{
  find_msg, replace_msg, transmit_again, transmit_new, transmit_auto, mtp2_transmit, Sent,
  make_lssu, make_fisu,
}

-- `tx_buf` holds consecutive numbers from the current one down.
pub record IsNumbered (l : Link) : Type 0 where
  pub current : l.curfsn < 128
  pub run : Consecutive l.curfsn l.tx_buf

Consecutive-replace_msg :
    (p n : ℕ) (ms : List Msg) (m m' : Msg)
    → find_msg p ms ≡ some m
    → m'.addr ≡ p
    → m'.su.head.fsn ≡ m.su.head.fsn
    → Consecutive n ms
    → Consecutive n (replace_msg m' ms)
unfolding find_msg replace_msg
Consecutive-replace_msg p n [] m m' e a f c = tt
Consecutive-replace_msg p n (x ∷ ms) m m' e a f c =
    ground (arith, Consecutive-replace_msg p ((n + 127) % 128) ms m m')

-- Two links that agree on the sequence number and the buffer.
IsNumbered-of_eq :
    (l l' : Link) → l'.curfsn ≡ l.curfsn → l'.tx_buf ≡ l.tx_buf → IsNumbered l → IsNumbered l'
IsNumbered-of_eq l l' e f v = record { current = rw e v.current; run = rw (e, f) v.run }

transmit_auto-IsNumbered :
    (w : World) (res : ℤ) → IsNumbered w.link → IsNumbered (transmit_auto w res).world.link
unfolding transmit_auto make_lssu make_fisu reset_mtp mtp2_dump init_mtp2_header
transmit_auto-IsNumbered w res v = ground arith

-- The message as `transmit_new` sends it.
abbrev pub stamped : Link → Msg → Msg
stamped l m = record m {
  su = record m.su {
    head = record m.su.head {
      fib = l.curfib;
      fsn = (l.curfsn + 1) % 128;
      bib = l.curbib;
      bsn = l.lastfsnacked;
    };
  };
}

curfsn-transmit_new :
    (w : World) (m : Msg) (rest : List Msg) (res : ℤ)
    → (transmit_new w m rest res).world.link.curfsn ≡ (w.link.curfsn + 1) % 128
unfolding transmit_new init_mtp2_header add_txbuf start_t7 mtp2_dump
curfsn-transmit_new w m rest res = ground arith

tx_buf-transmit_new :
    (w : World) (m : Msg) (rest : List Msg) (res : ℤ)
    → (transmit_new w m rest res).world.link.tx_buf ≡ stamped w.link m ∷ w.link.tx_buf
unfolding transmit_new init_mtp2_header add_txbuf start_t7 mtp2_dump
tx_buf-transmit_new w m rest res = ground arith

Consecutive-of_eq : {n k : ℕ} (ms : List Msg) → n ≡ k → Consecutive n ms → Consecutive k ms
Consecutive-of_eq ms e c = subst (λ n. Consecutive n ms) e c

transmit_new-IsNumbered :
    (w : World) (m : Msg) (rest : List Msg) (res : ℤ)
    → IsNumbered w.link
    → IsNumbered (transmit_new w m rest res).world.link
transmit_new-IsNumbered w m rest res v = record {
  current = omega (arith, curfsn-transmit_new w m rest res);
  run =
      rw (curfsn-transmit_new w m rest res, tx_buf-transmit_new w m rest res)
        (refl, Consecutive-of_eq w.link.tx_buf back v.run);
}
  where
    back : w.link.curfsn ≡ ((w.link.curfsn + 1) % 128 + 127) % 128
    back = omega (arith, v.current)

-- The message as `transmit_again` sends it.
abbrev refreshed : Link → Msg → Msg
refreshed l m = record m {
  su = record m.su { head = record m.su.head { fib = l.curfib; bsn = l.lastfsnacked } };
}

curfsn-transmit_again :
    (w : World) (m : Msg) (res : ℤ) → (transmit_again w m res).world.link.curfsn ≡ w.link.curfsn
unfolding transmit_again mtp2_dump update_retransmit_pos
curfsn-transmit_again w m res = ground arith

tx_buf-transmit_again :
    (w : World) (m : Msg) (res : ℤ)
    → (transmit_again w m res).world.link.tx_buf ≡ replace_msg (refreshed w.link m) w.link.tx_buf
unfolding transmit_again mtp2_dump update_retransmit_pos
tx_buf-transmit_again w m res = ground arith

addr-find_msg : (p : ℕ) (ms : List Msg) (m : Msg) → find_msg p ms ≡ some m → m.addr ≡ p
unfolding find_msg
addr-find_msg p [] m e = cc
addr-find_msg p (x ∷ ms) m e = ground (arith, addr-find_msg p ms m)

transmit_again-IsNumbered :
    (w : World) (p : ℕ) (m : Msg) (res : ℤ)
    → find_msg p w.link.tx_buf ≡ some m
    → IsNumbered w.link
    → IsNumbered (transmit_again w m res).world.link
transmit_again-IsNumbered w p m res e v = record {
  current = omega (arith, curfsn-transmit_again w m res, v.current);
  run =
      rw (curfsn-transmit_again w m res, tx_buf-transmit_again w m res)
        (Consecutive-replace_msg p w.link.curfsn w.link.tx_buf m (refreshed w.link m) e
          (addr-find_msg p w.link.tx_buf m e) refl v.run);
}

pub transmit_idle :
    (w : World) (res : ℤ)
    → w.link.retransmit_pos ≡ none
    → w.link.tx_q ≡ []
    → mtp2_transmit w res ≡ some (transmit_auto w res)
unfolding mtp2_transmit
transmit_idle w res e f = ground arith

pub transmit_queued :
    (w : World) (m : Msg) (rest : List Msg) (res : ℤ)
    → w.link.retransmit_pos ≡ none
    → w.link.tx_q ≡ m ∷ rest
    → mtp2_transmit w res ≡ some (transmit_new w m rest res)
unfolding mtp2_transmit
transmit_queued w m rest res e f = ground arith

pub transmit_buffered :
    (w : World) (p : ℕ) (m : Msg) (res : ℤ)
    → w.link.retransmit_pos ≡ some p
    → find_msg p w.link.tx_buf ≡ some m
    → mtp2_transmit w res ≡ some (transmit_again w m res)
unfolding mtp2_transmit
transmit_buffered w p m res e f = ground arith

pub transmit_dangling :
    (w : World) (p : ℕ) (res : ℤ)
    → w.link.retransmit_pos ≡ some p
    → find_msg p w.link.tx_buf ≡ none
    → mtp2_transmit w res ≡ none
unfolding mtp2_transmit
transmit_dangling w p res e f = ground arith

-- What was sent is what the branch sent.
conclude :
    (o : Option Sent) (s t : Sent)
    → o ≡ some s
    → o ≡ some t
    → IsNumbered t.world.link
    → IsNumbered s.world.link
conclude o s t e f v =
    subst (λ (x : Sent). IsNumbered x.world.link) (some-injective t s (sym f ∙ e)) v

by_queue :
    (w : World) (q : List Msg) (res : ℤ) (s : Sent)
    → w.link.retransmit_pos ≡ none
    → w.link.tx_q ≡ q
    → mtp2_transmit w res ≡ some s
    → IsNumbered w.link
    → IsNumbered s.world.link
by_queue w [] res s e f h v =
    conclude (mtp2_transmit w res) s (transmit_auto w res) h (transmit_idle w res e f)
      (transmit_auto-IsNumbered w res v)
by_queue w (m ∷ rest) res s e f h v =
    conclude (mtp2_transmit w res) s (transmit_new w m rest res) h
      (transmit_queued w m rest res e f) (transmit_new-IsNumbered w m rest res v)

by_pos :
    (w : World) (p : ℕ) (res : ℤ) (s : Sent)
    → w.link.retransmit_pos ≡ some p
    → mtp2_transmit w res ≡ some s
    → IsNumbered w.link
    → IsNumbered s.world.link
by_pos w p res s e h v = elim (Option-cases (find_msg p w.link.tx_buf)) [
  | inl f ↦ none_is_some (sym (transmit_dangling w p res e f) ∙ h)
  | inr (m, f) ↦
      conclude (mtp2_transmit w res) s (transmit_again w m res) h (transmit_buffered w p m res e f)
        (transmit_again-IsNumbered w p m res f v)
]
  where
    none_is_some : none ≡ some s → IsNumbered s.world.link
    none_is_some q = cc

-- Whatever `mtp2_transmit` sends and whatever `write` returns, it keeps the buffer of sent messages
-- numbered consecutively from the current sequence number down.
pub mtp2_transmit-IsNumbered :
    (w : World) (res : ℤ) (s : Sent)
    → mtp2_transmit w res ≡ some s
    → IsNumbered w.link
    → IsNumbered s.world.link
mtp2_transmit-IsNumbered w res s h v = elim (Option-cases w.link.retransmit_pos) [
  | inl e ↦ by_queue w w.link.tx_q res s e refl h v
  | inr (p, e) ↦ by_pos w p res s e h v
]
