-- ===== src/EventQueue/Tests.antt =====
-- The event queue at concrete rings.
use libss.Base.{ℕ, Option, ◌≡◌, refl, some, [], ◌∷◌, replicate, ◌++◌, arith}
use libss.EventQueue.{Queue, post, ss7_check_event}
use libss.EventQueue.Fifo.{IsQueue, Posts, Takes, post-Posts, ss7_check_event-Takes}

-- Two events wait, at the two ends of the ring.
abbrev wrapped : Queue ℕ
wrapped = record { ev_h = 15; ev_len = 2; ev_q = 20 ∷ replicate 14 0 ++ 10 ∷ [] }

wrapped-IsQueue : IsQueue wrapped
wrapped-IsQueue = record { head = omega arith; fits = omega arith; ring = refl }

-- A level 3 that posts nothing.
abbrev quiet : Queue ℕ → ℕ → Queue ℕ × Option ℕ
quiet q i = (q, some i)

oldest_first : (ss7_check_event quiet wrapped).1 ≡ some 15
unfolding ss7_check_event
oldest_first = refl

post-Posts_example : Posts wrapped 30 (post wrapped 30)
post-Posts_example = post-Posts wrapped 30 wrapped-IsQueue

ss7_check_event-Takes_example : Takes quiet wrapped (ss7_check_event quiet wrapped)
ss7_check_event-Takes_example = ss7_check_event-Takes quiet wrapped wrapped-IsQueue
