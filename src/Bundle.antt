-- ===== src/Bundle.antt =====
-- Support bundles, tools/apm_suite/bundle.py: what an export may store (this file and Bundle/Scrub), the
-- export itself and the import. Archives are what `zipfile` is given and what it reports.
pub mod Scrub
pub mod Lines
pub mod Redacted
pub mod Home
pub mod Export
pub mod Kept
pub mod Import
pub mod Guarded
pub mod Trip
