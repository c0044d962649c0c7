-- ===== src/IsoTp.antt =====
-- The transport of src/isotp.c and include/isotp.h: its constants and frames, the sender, the
-- receiver, and what is proved of them.
pub mod Frame
pub mod Send
pub mod Recv
pub mod Segments
pub mod Layout
pub mod Clearance
pub mod Written
pub mod Sent
pub mod Capacity
pub mod Reassembly
pub mod RoundTrip
pub mod Lost
pub mod Parts
pub mod Steps
pub mod Intact
pub mod FlowControl
mod Examples
