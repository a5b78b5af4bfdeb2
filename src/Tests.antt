-- ===== src/Tests.antt =====
-- Runs of the model on small inputs, and its theorems at concrete ones.
mod Oci
mod Protocol
mod Apply
mod Downloads
mod Leases
mod Config
mod Manifest
mod Syncfs
mod Queues
mod Guards
mod Tty
mod Version
mod Client
mod Discovery
