-- ===== src/Tunnel.antt =====
-- The client side of the tunnel: internal/yggss/direct.go and the client of internal/yggss/tunnel.go.
pub mod State
pub mod Direct
pub mod Client
pub mod Prober
pub mod Events
pub mod Ownership
pub mod Selection
pub mod MeshMode
pub mod Cutover
pub mod Trust
pub mod Upgrade
pub mod Cadence
pub mod Goroutine
