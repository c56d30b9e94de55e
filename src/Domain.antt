-- ===== src/Domain.antt =====
-- internal/domain: what the rest of the system shares.
pub mod Requirement
