-- ===== src/Host.antt =====
-- internal/host: the stores and limits that guard a host, and the queue of its streamed logs.
pub mod PairLimit
pub mod LogStream
pub mod PairCodes
pub mod TrustStore
pub mod Leases
pub mod Restart
pub mod PipeInput
pub mod Downloads
pub mod TtyInput
pub mod LeaseFiles
pub mod Contexts
