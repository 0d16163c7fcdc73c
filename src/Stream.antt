-- ===== src/Stream.antt =====
-- The bytes of one tunnel stream: probe detection and the copying in both directions
-- (internal/yggss/tunnel.go, and the accept loop of internal/yggss/direct.go).
pub mod Peek
pub mod Pipe
pub mod Lossless
pub mod Traffic
pub mod Totals
