-- ===== src/Transfer.antt =====
-- `send` and `recv` of src/rudp_lib.cpp.
pub mod Send
pub mod Copying
pub mod Receive
pub mod Packets
pub mod Link
pub mod Exchange
