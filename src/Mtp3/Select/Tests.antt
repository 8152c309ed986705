-- ===== src/Mtp3/Select/Tests.antt =====
-- Two links, of which the first one is down.
use libss.Base.{List, [], ◌∷◌, arith}
use libss.Base.Int.{minus_one}
use libss.Mtp2.Transmit.{itu}
use libss.Mtp3.Label.{RoutingLabel}
use libss.Mtp3.Select.{SigLink, steady, rl_to_link}
use libss.Mtp3.Select.First.{Selects, rl_to_link-Selects}

abbrev two_links : List SigLink
two_links =
    record { linkstate = 0; adj_state = 1; changeover = steady; routes = [] }
    ∷ record {
      linkstate = 3;
      adj_state = 1;
      changeover = steady;
      routes = record { addr = 1; state = 2; dpc = 5; t6 = minus_one } ∷ [];
    }
    ∷ []

abbrev label : RoutingLabel
label = record { type = itu; dpc = 5; opc = 300; sls = 8 }

rl_to_link-Selects_example : Selects two_links 5 0 (rl_to_link two_links 0 label)
rl_to_link-Selects_example = rl_to_link-Selects two_links 0 label (omega arith)
