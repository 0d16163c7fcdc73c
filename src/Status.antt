-- ===== src/Status.antt =====
-- The periodic status log (internal/yggss/stats.go).
pub mod Size
pub mod Transit
pub mod Report
pub mod Route
pub mod Log
pub mod PathLines
pub mod LogPath
