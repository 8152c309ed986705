-- ===== src/Isup.antt =====
-- isup.c: the ISDN user part.
pub mod Bytes
pub mod Digits
pub mod Call
pub mod Numbers
pub mod Generic
pub mod Status
pub mod Indicators
pub mod Fields
pub mod Plain
pub mod Parms
pub mod Messages
pub mod Send
pub mod Receive
pub mod Release
pub mod Setters
pub mod Flags
pub mod Calls
pub mod Timers
pub mod World
pub mod Ownership
pub mod Running
pub mod GroupSenders
pub mod Senders
pub mod Requests
pub mod Incoming
pub mod GroupHandlers
pub mod CircuitHandlers
pub mod CallHandlers
pub mod Handlers
pub mod Arrival
pub mod Expiry
pub mod Callbacks
pub mod TimerSettings
mod CallExamples
mod Sample
mod Tests
mod Examples
