-- ===== src/Report.antt =====
-- The verdict of a session's summary, tools/apm_suite/analysis/report.py.
pub mod Causes
pub mod Lag
pub mod Pressure
