-- ===== src/Isup/Parms/Framing.antt =====
-- A parameter behind its length, or behind its type and its length, sent and read by `do_parm`.
use libss.Base.{ℕ, ◌+◌, ◌<◌, ◌≤◌, ◌≡◌, refl, ◌∙◌, some, arith, lt→ltb}
use libss.Isup.Bytes.{Mem, store, store_self}
use libss.Isup.Call.{Call, Ss7, Written}
use libss.Isup.Parms.{
  ok, Receive, Transmit, ParmType, fixed, variable, optional, send_by, receive_by, transmit_of,
  receive_of, parms, do_parm_tx, do_parm_rx,
}

-- The bytes in front of the parameter.
abbrev pub front : ParmType → ℕ
front fixed = 0
front variable = 1
front optional = 2

-- The buffer that the parameter is written to: the type of an optional one is there before it.
abbrev pub typed : ParmType → ℕ → Mem → ℕ → Mem
typed fixed parm m p = m
typed variable parm m p = m
typed optional parm m p = store m p parm

-- What is received does not depend on bytes in front of the parameter.
abbrev pub ReadsFrom : Receive → Type 0
ReadsFrom f =
    (ss7 : Ss7) (c : Call) (mt : ℕ) (b b' : Mem) (p n : ℕ)
    → ((j : ℕ) → p ≤ j → b j ≡ b' j)
    → f ss7 c mt b p n ≡ f ss7 c mt b' p n

-- What do_parm writes it also reads, in full, as the call `d`.
pub record IsFramed (ss7 ss7' : Ss7) (c c' d : Call) (mt parm : ℕ) (m : Mem) (p room left : ℕ)
    (k : ParmType) (w : Written) : Type 0 where
  pub written : Written
  pub sent : do_parm_tx ss7 c mt parm m p room k ≡ ok written
  pub size : written.size ≡ w.size + front k
  pub call : written.call ≡ w.call
  pub read : do_parm_rx ss7' c' mt parm written.buf p left k ≡ ok (d, written.size)

kept : (b : Mem) (q v p : ℕ) → q < p → (j : ℕ) → p ≤ j → store b q v j ≡ b j
unfolding store
kept b q v p h j l = ground arith

module _ (ss7 ss7' : Ss7) (c c' d : Call) (mt parm : ℕ) (m : Mem) (p room left : ℕ) (t : Transmit)
    (f : Receive) (w : Written) (et : transmit_of parms parm ≡ some t)
    (ef : receive_of parms parm ≡ some f) (reads : ReadsFrom f) (positive : 0 < w.size)
    (short : w.size < 256) where
  back :
      (q n : ℕ)
      → q < n
      → f ss7' c' mt w.buf n w.size ≡ some (d, w.size)
      → f ss7' c' mt (store w.buf q w.size) n w.size ≡ some (d, w.size)
  back q n h e =
      reads ss7' c' mt (store w.buf q w.size) w.buf n w.size (kept w.buf q w.size n h) ∙ e

  variable-IsFramed :
      t ss7 c mt m (p + 1) room ≡ some w
      → f ss7' c' mt w.buf (p + 1) w.size ≡ some (d, w.size)
      → IsFramed ss7 ss7' c c' d mt parm m p room left variable w
  unfolding do_parm_tx do_parm_rx send_by receive_by
  variable-IsFramed e g = record {
    written = record w { buf = store w.buf p w.size; size = w.size + 1 };
    sent = rw (et, e, lt→ltb 0 w.size positive);
    size = refl;
    call = refl;
    read = rw (ef, store_self w.buf p w.size w.size refl short, back p (p + 1) (omega arith) g);
  }

  optional-IsFramed :
      t ss7 c mt (store m p parm) (p + 2) room ≡ some w
      → f ss7' c' mt w.buf (p + 2) w.size ≡ some (d, w.size)
      → IsFramed ss7 ss7' c c' d mt parm m p room left optional w
  unfolding do_parm_tx do_parm_rx send_by receive_by
  optional-IsFramed e g = record {
    written = record w { buf = store w.buf (p + 1) w.size; size = w.size + 2 };
    sent = rw (et, e, lt→ltb 0 w.size positive);
    size = refl;
    call = refl;
    read = rw (
      ef,
      store_self w.buf (p + 1) w.size w.size refl short,
      back (p + 1) (p + 2) (omega arith) g,
    );
  }

  -- For a parameter that is not of fixed length, of the table in both directions: where its own
  -- functions send it in 1 to 255 bytes and read these, in full, as the call `d`, looking at nothing
  -- in front of them, do_parm sends and reads it with its frame.
  pub do_parm-IsFramed :
      (k : ParmType)
      → 0 < front k
      → t ss7 c mt (typed k parm m p) (p + front k) room ≡ some w
      → f ss7' c' mt w.buf (p + front k) w.size ≡ some (d, w.size)
      → IsFramed ss7 ss7' c c' d mt parm m p room left k w
  do_parm-IsFramed fixed h e g = elim h [ ]
  do_parm-IsFramed variable h e g = variable-IsFramed e g
  do_parm-IsFramed optional h e g = optional-IsFramed e g
