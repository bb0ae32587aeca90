-- ===== src/Profiler.antt =====
-- tools/host_profiler: from `perf script` output to folded stacks, flame trees and speedscope.
pub mod Collapse
pub mod Speedscope
pub mod Dumps
pub mod Folded
