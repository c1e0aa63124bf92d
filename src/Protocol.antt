-- ===== src/Protocol.antt =====
-- src/protocol.rs: the requests and responses of the device.
pub mod Consts
pub mod Structs
pub mod Command
pub mod Response
