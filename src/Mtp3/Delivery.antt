-- ===== src/Mtp3/Delivery.antt =====
-- mtp3_transmit and mtp3_receive, up to the function that each hands the message to, whose answer is
-- theirs. A message is its bytes from the service information octet on, which mtp3_transmit
-- finds at MTP2_SIZE.
pub mod Arrives
mod Guard
mod Tests
use libss.Base.{
  ℕ, ◌+◌, ◌*◌, ◌%◌, ◌^◌, Bool, true, false, ◌&&◌, ◌||◌, not, Option, none, some, List,
  if◌then◌else◌, ◌==◌,
}
use libss.Base.Int.{ℤ, pos, minus, to_ℕ}
use libss.Mtp2.Transmit.{itu}
use libss.Mtp3.Label.{RoutingLabel, write, get_routinglabel, get_userpart, get_ni}
use libss.Mtp3.Select.{SigLink, Buffer, mtp3_up, rl_to_link}

abbrev pub sig_net_mng : ℕ
sig_net_mng = 0

abbrev pub sig_std_test : ℕ
sig_std_test = 1

abbrev pub sig_spec_test : ℕ
sig_spec_test = 2

abbrev pub sig_isup : ℕ
sig_isup = 5

-- Of struct ss7: the network indicator, the point code and the links.
pub record Node : Type 0 where
  pub switchtype : ℕ
  pub ni : ℕ
  pub pc : ℕ
  pub sls_shift : ℕ
  pub links : List SigLink

-- mtp3_to_buffer, mtp2_msu, or `free` for want of a link; a link is its number.
pub data Transmitted : Type 0 where
  to_buffer : Buffer → Transmitted
  msu : ℕ → Transmitted
  no_link : Transmitted

abbrev pub hand : Option ℕ → Option Buffer → Transmitted
hand none b = no_link
hand (some k) none = msu k
hand (some k) (some b) = to_buffer b

unfoldable pub winner : Node → ℕ → RoutingLabel → Option ℕ → Option ℕ × Option Buffer
winner ss7 userpart rl link =
    if userpart == sig_isup then rl_to_link ss7.links ss7.sls_shift rl else (link, none)

-- The network indicator has two bits, the priority two and the user part four.
unfoldable pub sio : Node → ℕ → ℕ → ℕ
sio ss7 userpart priority =
    if ss7.switchtype == itu
    then (ss7.ni * 2 ^ 6 + userpart) % 2 ^ 8
    else (ss7.ni * 2 ^ 6 + priority * 2 ^ 4 + userpart) % 2 ^ 8

-- Where the message goes, and the message.
unfoldable pub mtp3_transmit :
    Node → ℕ → RoutingLabel → ℕ → (ℕ → ℕ) → Option ℕ → Transmitted × (ℕ → ℕ)
unfolding winner sio write
mtp3_transmit ss7 userpart rl priority m link =
    let (k, buffer) = winner ss7 userpart rl link in
    (hand k buffer, write m 0 (sio ss7 userpart priority))

-- Of struct mtp2: the point code and the number of the link, and the state of its adjacent point.
pub record Via : Type 0 where
  pub dpc : ℕ
  pub slc : ℕ
  pub adj_state : ℕ

-- std_test_receive, isup_receive and net_mng_receive with their label; where the message of
-- isup_receive begins, and its length. `refused` answers -1, the others 0.
pub data Received : Type 0 where
  refused not_up dropped : Received
  std_test : RoutingLabel → Received
  isup : RoutingLabel → ℕ → ℤ → Received
  net_mng : RoutingLabel → Received

-- The switch on the user part.
unfoldable pub user_part : ℕ → ℕ → RoutingLabel → ℕ → ℕ → Received
user_part adj_state userpart rl rlsize len =
    if userpart == sig_std_test || userpart == sig_spec_test
    then std_test rl
    else if userpart == sig_isup
    then if adj_state == mtp3_up
      then isup rl (1 + rlsize) (minus (pos len) (1 + rlsize))
      else not_up
    else if userpart == sig_net_mng
    then net_mng rl
    else dropped

abbrev pub for_link : ℕ → Bool
for_link userpart = userpart == sig_std_test || userpart == sig_spec_test || userpart == sig_net_mng

-- The label is read, of `rlsize` bytes.
unfoldable pub labelled : Node → Via → ℕ → ℕ → RoutingLabel → ℕ → Received
unfolding user_part
labelled ss7 link userpart len rl rlsize =
    if not (ss7.pc == rl.dpc)
    then refused
    else if for_link userpart && (not (link.dpc == rl.opc) || not (link.slc == rl.sls))
    then refused
    else user_part link.adj_state userpart rl rlsize len

unfoldable pub mtp3_receive : Node → Via → (ℕ → ℕ) → ℕ → Received
unfolding labelled get_routinglabel get_ni get_userpart
mtp3_receive ss7 link m len =
    let label = get_routinglabel ss7.switchtype (λ i. m (i + 1)) in
    if not (ss7.ni == get_ni (m 0))
    then refused
    else labelled ss7 link (get_userpart (m 0)) len (label.0) (to_ℕ (label.1))
