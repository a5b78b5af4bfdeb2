-- ===== src/Oci.antt =====
-- internal/oci: container images.
pub mod Reference
