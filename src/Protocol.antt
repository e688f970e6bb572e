-- ===== src/Protocol.antt =====
-- protocol/: the wire format of the key-value server.
pub mod Lines
pub mod Requests
pub mod Responses
