-- ===== src/Mtp2/Types.antt =====
-- mtp2.h and the fields of `struct ss7` that level 2 uses. Bit fields of width 1 are Booleans, the
-- two bits of `flags` are two fields, and a pointer to a message or a link is the address of what it
-- points to. Fields that only level 3 reads are left out.
use libss.Base.{ℕ, Bool, Option, List, get_or}
use libss.Base.Int.{ℤ}
use libss.Sched.{Timeval, Sched}
use libss.EventQueue.{Queue}

pub data LinkState : Type 0 where
  idle notaligned aligned proving alignedready inservice alarm : LinkState

-- The `LSSU_` codes and `FISU`, as `autotxsutype` and `lastsurxd` hold them.
abbrev pub sio : ℕ
sio = 0

abbrev pub sin : ℕ
sin = 1

abbrev pub sie : ℕ
sie = 2

abbrev pub sios : ℕ
sios = 3

abbrev pub sipo : ℕ
sipo = 4

abbrev pub sib : ℕ
sib = 5

abbrev pub fisu : ℕ
fisu = 6

abbrev pub mtp2_size : ℕ
mtp2_size = 3

abbrev pub lssu_size : ℕ
lssu_size = 6

abbrev pub fisu_size : ℕ
fisu_size = 5

-- struct mtp_su_head, without the two spare bits
pub record SuHead : Type 0 where
  pub bsn : ℕ
  pub bib : Bool
  pub fsn : ℕ
  pub fib : Bool
  pub li : ℕ

-- A signal unit in a buffer: its header, and the buffer from `data` on.
pub record Su : Type 0 where
  pub head : SuHead
  pub body : List ℕ

-- `h->data[0]`; every buffer that the code reads it from is longer than the header.
abbrev pub first_byte : Su → ℕ
first_byte u = get_or u.body 0 0

-- struct ss7_msg; `next` is the rest of the list that the message stands in
pub record Msg : Type 0 where
  pub addr : ℕ
  pub su : Su
  pub size : ℕ

-- struct mtp2_timers, in milliseconds
pub record Timers : Type 0 where
  pub t1 : ℕ
  pub t2 : ℕ
  pub t3 : ℕ
  pub t4 : ℕ
  pub t4e : ℕ
  pub t7 : ℕ

-- struct mtp2
pub record Link : Type 0 where
  pub addr : ℕ
  pub state : LinkState
  pub curfsn : ℕ
  pub curfib : Bool
  pub lastfsnacked : ℕ
  pub curbib : Bool
  pub fd : ℕ
  pub flag_dahdimtp2 : Bool
  pub flag_write : Bool
  pub t1 : ℤ
  pub t2 : ℤ
  pub t3 : ℤ
  pub t4 : ℤ
  pub t7 : ℤ
  pub timers : Timers
  pub emergency : Bool
  pub provingperiod : ℕ
  pub autotxsutype : ℕ
  pub lastsurxd : ℤ
  pub lastsutxd : ℤ
  pub retransmissioncount : ℕ
  pub tx_buf : List Msg
  pub tx_q : List Msg
  pub retransmit_pos : Option ℕ

-- The functions that this library schedules; `other` stands for those of level 3 and ISUP.
pub data Callback : Type 0 where
  t1_expiry t2_expiry t3_expiry t4_expiry t7_expiry : Callback
  other : ℕ → Callback

-- The two events of level 2, with the link they are about, and those of the other levels.
pub data Event : Type 0 where
  link_up : ℕ → Event
  link_down : ℕ → Event
  other : ℕ → Event

-- What level 2 uses of struct ss7, and the time that `gettimeofday` returns during the step.
pub record Master : Type 0 where
  pub sched : Sched Callback ℕ
  pub events : Queue Event
  pub debug_mtp2 : Bool
  pub now : Timeval

-- A link with its master.
pub record World : Type 0 where
  pub link : Link
  pub master : Master
