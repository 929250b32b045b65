-- ===== src/Transport.antt =====
-- src/microReticulum/Transport.cpp: the parts of the transport node that decide what happens to a
-- packet. The tables are arguments of the functions, and a handler returns what it changes.
pub mod Forward
pub mod Links
pub mod Queue
pub mod Filter
pub mod Rate
pub mod Announce
pub mod Blobs
pub mod Retransmit
