-- ===== src/Examples.antt =====
-- Tests, and the theorems applied to concrete inputs, part by part.
pub mod OfIo
pub mod OfProfiler
pub mod OfCollectors
pub mod OfSession
pub mod OfStore
pub mod OfSymbols
pub mod OfEvents
pub mod OfAnalysis
pub mod OfBridge
pub mod OfBundle
pub mod OfReport
