-- ===== src/Client.antt =====
-- What the client keeps.
pub mod State
