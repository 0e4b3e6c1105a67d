-- ===== src/Common/RollingIndex.antt =====
-- src/common/rolling_index.go: a window of at most `2 * size` items over an indexed log. `Defs` has
-- the code, `Log` what it promises.
pub mod Defs
pub mod Log
pub mod Writes
pub mod Reads
