-- ===== src/Serial.antt =====
-- serial.rs: the wire format. Every part is a child module.
pub mod Codec
pub mod Ints
pub mod VarInt
pub mod Vec
pub mod Text
pub mod Addr
pub mod Signed
pub mod Wire
