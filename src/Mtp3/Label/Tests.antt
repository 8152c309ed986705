-- ===== src/Mtp3/Label/Tests.antt =====
-- A label between two signalling points of an ITU network.
use libss.Base.{arith, refl}
use libss.Mtp2.Transmit.{itu}
use libss.Mtp3.Label.{RoutingLabel}
use libss.Mtp3.Label.Roundtrip.{of_itu, Roundtrips, set_routinglabel-Roundtrips}

abbrev label : RoutingLabel
label = record { type = itu; dpc = 8191; opc = 300; sls = 9 }

set_routinglabel-Roundtrips_example : Roundtrips (λ i. 0) label 4
set_routinglabel-Roundtrips_example =
    set_routinglabel-Roundtrips (λ i. 0) label
      (of_itu refl (omega arith) (omega arith) (omega arith))
