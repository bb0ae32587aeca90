-- ===== src/Io.antt =====
-- tools/apm_suite/io.py: the untrusted readers.
pub mod Comments
pub mod Json
pub mod Members
pub mod Claim
