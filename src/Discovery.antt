-- ===== src/Discovery.antt =====
-- How clients and hosts find each other.
pub mod Claims
