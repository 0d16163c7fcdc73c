-- ===== src/Server.antt =====
-- The server side: the accept loops and the handler of a stream, of the mesh tunnel
-- (internal/yggss/tunnel.go) and of the direct one (internal/yggss/direct.go).
pub mod Handler
pub mod System
pub mod Forwarding
pub mod Admission
pub mod Safety
pub mod Probes
pub mod Queues
pub mod Refinement
pub mod Delivery
pub mod EndToEnd
