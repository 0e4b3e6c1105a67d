-- ===== src/Common.antt =====
-- Package src/common: the typed store errors and the rolling windows that the caches are made of.
pub mod Errors
pub mod Exec
pub mod Sort
pub mod RollingIndex
pub mod RollingIndexMap
