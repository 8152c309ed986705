-- ===== src/Mtp2/Sample.antt =====
-- Links and messages for the tests of level 2.
use libss.Base.{ℕ, true, false, none, [], ◌∷◌, replicate}
use libss.Base.Int.{minus_one}
use libss.Mtp2.Types.{LinkState, Link, Master, World, Su, Msg, sios, Event}

abbrev pub link_in : LinkState → Link
link_in s = record {
  addr = 1;
  state = s;
  curfsn = 2;
  curfib = true;
  lastfsnacked = 127;
  curbib = true;
  fd = 7;
  flag_dahdimtp2 = false;
  flag_write = false;
  t1 = minus_one;
  t2 = minus_one;
  t3 = minus_one;
  t4 = minus_one;
  t7 = minus_one;
  timers = record { t1 = 45000; t2 = 50000; t3 = 1500; t4 = 8500; t4e = 500; t7 = 1250 };
  emergency = false;
  provingperiod = 8500;
  autotxsutype = sios;
  lastsurxd = minus_one;
  lastsutxd = minus_one;
  retransmissioncount = 0;
  tx_buf = [];
  tx_q = [];
  retransmit_pos = none;
}

abbrev pub master : Master
master = record {
  sched = record {
    slots =
        replicate 512
          (record { when = record { tv_sec = 0; tv_usec = 0 }; callback = none; arg = none });
    stray = 0;
  };
  events = record { ev_h = 0; ev_len = 0; ev_q = replicate 16 (Event.other 0) };
  debug_mtp2 = false;
  now = record { tv_sec = 10; tv_usec = 0 };
}

abbrev pub world_in : LinkState → World
world_in s = record { link = link_in s; master = master }

-- A unit with FSN `n`, the indicators set and length indicator `li`.
abbrev pub unit : ℕ → ℕ → Su
unit n li = record {
  head = record { bsn = 127; bib = true; fsn = n; fib = true; li = li };
  body = 1 ∷ 2 ∷ 3 ∷ [];
}

-- A message at address `a`, sent with FSN `n`.
abbrev pub message : ℕ → ℕ → Msg
message a n = record { addr = a; su = unit n 5; size = 10 }
