-- ===== src/Uds.antt =====
-- The UDS service dispatcher of src/uds.c: the handlers, service by service, the dispatch, and what
-- is proved of them.
pub mod Reply
pub mod Sessions
pub mod Faults
pub mod Identifiers
pub mod Access
pub mod Dispatch
pub mod Sections
pub mod Invariant
pub mod Format
pub mod Overrun
pub mod Silence
pub mod Gate
pub mod Handshake
pub mod RoundTrip
pub mod OwnerName
mod Examples
