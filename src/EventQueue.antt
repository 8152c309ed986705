-- ===== src/EventQueue.antt =====
-- The event queue of ss7.c (`ss7_next_empty_event`, `ss7_check_event`): the fields `ev_h`,
-- `ev_len` and `ev_q` of `struct ss7`, a ring of 16 events over a type of events. `ev_t` is never
-- used. A pointer into `ev_q` is the index of the entry, and the null pointer is `none`; the caller
-- of `ss7_next_empty_event` fills the entry in, which is `write_event`.
pub mod Fifo
mod Tests
use libss.Base.{
  ℕ, zero, suc, ◌+◌, ◌-◌, ◌%◌, Option, none, some, List, [], ◌∷◌, if◌then◌else◌, ◌==◌, get_elem?,
  set, replicate,
}

abbrev pub max_events : ℕ
max_events = 16

pub record Queue (E : Type 0) : Type 0 where
  pub ev_h : ℕ
  pub ev_len : ℕ
  pub ev_q : List E

module _ {E : Type 0} where
  -- The queue of a new `struct ss7`, whose entries `calloc` has filled with `blank`.
  unfoldable pub new_queue : E → Queue E
  new_queue blank = record { ev_h = 0; ev_len = 0; ev_q = replicate max_events blank }

  unfoldable pub ss7_next_empty_event : Queue E → Queue E × Option ℕ
  ss7_next_empty_event q =
      if q.ev_len == max_events
      then (q, none)
      else (record q { ev_len = q.ev_len + 1 }, some ((q.ev_h + q.ev_len) % max_events))

  unfoldable pub write_event : Queue E → ℕ → E → Queue E
  write_event q i e = record q { ev_q = set q.ev_q i e }

  -- Take an entry and fill it in; `none` where there is no entry left.
  unfoldable pub post : Queue E → E → Option (Queue E)
  unfolding ss7_next_empty_event write_event
  post q e =
      let (q', entry) = ss7_next_empty_event q in
      elim entry [ none ↦ none | some i ↦ some (write_event q' i e) ]

  -- The ring with its oldest event taken out.
  pub advance : Queue E → Queue E
  advance q = record q { ev_h = (q.ev_h + 1) % max_events; ev_len = q.ev_len - 1 }

  -- `process` is mtp3_process_event, which is given the entry and may post into the ring.
  pub ss7_check_event : (Queue E → ℕ → Queue E × Option ℕ) → Queue E → Queue E × Option ℕ
  unfolding advance
  ss7_check_event process q = if q.ev_len == 0 then (q, none) else process (advance q) q.ev_h
