-- ===== src/Packet.antt =====
-- src/microReticulum/Packet.h, Packet.cpp and Type.h: the packet object, its flag byte, and the
-- translation to and from the bytes on the wire.
pub mod Context
pub mod Types
pub mod Flags
pub mod Wire
pub mod Hash
pub mod Receipt
