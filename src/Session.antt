-- ===== src/Session.antt =====
-- tools/apm_suite/session.py: which sessions are kept, and the integrity audit.
pub mod Retention
pub mod Settings
pub mod Trash
pub mod Files
pub mod Manifest
pub mod Review
pub mod Verify
pub mod Audit
