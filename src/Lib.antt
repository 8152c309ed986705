-- ===== src/Lib.antt =====
-- libss7, an implementation of Signalling System 7 in C: the scheduler, the event queue, the
-- signalling link of level 2, the routing label and link selection of level 3, and the messages
-- of ISUP.
--
-- ss7_sched.c keeps the timers of all levels in one table (Sched.antt). ss7.c keeps the events
-- for the application in a ring (EventQueue.antt). mtp2.c runs one signalling link: its state
-- machine (Mtp2/States.antt), reception (Mtp2/Receive.antt), the buffers (Mtp2/Buffers.antt) and
-- transmission (Mtp2/Transmit.antt), over the records of mtp2.h and ss7_internal.h
-- (Mtp2/Types.antt). mtp3.c begins a message with a routing label (Mtp3/Label.antt), which
-- selects the link to send on (Mtp3/Select.antt); mtp3_transmit and mtp3_receive stand in
-- Mtp3/Delivery.antt, up to the function that each hands the message to; Mtp3/Changeover.antt has
-- the moves from one buffer to another. isup.c keeps telephone numbers as text and sends them as
-- half-bytes (Isup/Digits.antt), and has a function to send and one to receive for each parameter
-- of a message: over the call (Isup/Call.antt) those with a number (Isup/Numbers.antt,
-- Isup/Generic.antt), with the states of a range of circuits (Isup/Status.antt), and of fixed
-- layout (Isup/Indicators.antt, Isup/Fields.antt), or of none (Isup/Plain.antt). do_parm finds
-- them in a table (Isup/Parms.antt), and a second table says which of them a message has
-- (Isup/Messages.antt): isup_send_message puts them together (Isup/Send.antt), and isup_receive
-- takes them apart (Isup/Receive.antt), into the call that it finds in a list (Isup/Calls.antt).
-- The timers of a call are slots of the scheduler's table (Isup/Timers.antt). The application
-- fills the call of a message to be sent (Isup/Setters.antt).
--
-- mtp2.c starts and stops its timers through the scheduler and posts its events to the ring: the
-- World of Mtp2/Types.antt holds one link with the part of struct ss7 that it shares.
-- States.antt, Receive.antt and Transmit.antt have one function for each function of mtp2.c, and
-- helpers for the cases of its switches. The call of level 3 from mtp2_receive is an argument,
-- and so is mtp3_process_event of ss7_check_event, as are the time of gettimeofday and the result
-- of write.
--
-- What happens to a call stands over the CallWorld of Isup/World.antt, one call with the part of
-- struct ss7 that it shares and with the messages handed to level 3; mtp3_transmit and the
-- callbacks ss7_call_null, ss7_hangup and ss7_notinservice are a parameter, the record Outside.
-- Isup/Senders.antt and Isup/GroupSenders.antt have one function for each that sends a message.
-- Isup/Arrival.antt is isup_receive from the length to the end, behind isup_find_call: the
-- parsing, then the switch. Isup/Handlers.antt is that switch, by the type of the message, over
-- Isup/CallHandlers.antt, Isup/CircuitHandlers.antt and Isup/GroupHandlers.antt, which have one
-- function for each case, and over isup_event_iam and isup_handle_unexpected in
-- Isup/Incoming.antt. Isup/Expiry.antt is isup_timer_expiry; Isup/Callbacks.antt runs the
-- scheduler over a table in which a call has timers; Isup/TimerSettings.antt sets their delays.
-- Isup/Flags.antt has the bits of got_sent_msg and Isup/Requests.antt the functions for the
-- application as one type. A call that was freed keeps its fields, and `live` says that it is
-- freed. An access outside of an array, of which C leaves undefined what comes, ends isup_receive
-- with no world where the parameters are read, and is counted in `overruns` elsewhere.
-- Isup/Ownership.antt says whose the slots of the scheduler's table are, and the modules of
-- Isup/Running.antt follow a call through all of this.
--
-- Loops run over lists, but for that of isup_receive over the optional parameters: its fuel is
-- the number of bytes left, and each round takes two at least. The table has 512 slots and the
-- ring 16 entries, as in ss7_internal.h. Numbers wrap at the width of the field where the code
-- can reach it; times stay below the range of time_t.
--
-- Not modelled: network management of mtp3.c (the states of a changeover and of a changeback, the
-- test of a link in std_test_receive, routes, net_mng_receive), the link table of ss7.c, the loop
-- of isup_free_all_calls (that it ends one call is a step of the history of a call), the printing
-- of messages, and the programs ss7test.c and ss7linktest.c. Level 3 hands a message to
-- isup_receive with its point code; that the call it is for is found in the list is the end of
-- Isup/Calls.antt, and the switch begins with that call.
mod Base
pub mod Sched
pub mod EventQueue
pub mod Mtp2
pub mod Mtp3
pub mod Isup
