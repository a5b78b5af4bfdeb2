-- ===== src/Protocol.antt =====
-- internal/protocol: what client and host exchange over a connection.
pub mod Frame
