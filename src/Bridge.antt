-- ===== src/Bridge.antt =====
-- The analysis of the game's own measurements, tools/apm_suite/analysis/bridge.py: the per-call heat of
-- a session's sections, and the attribution of managed time to subsystems.
pub mod Heats
pub mod Subsystems
pub mod Ledger
pub mod Attribution
pub mod Rule
pub mod Catalog
pub mod Sections
pub mod Matching
