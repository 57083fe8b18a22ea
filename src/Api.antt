-- ===== src/Api.antt =====
-- The package adapter/internal/api: the HTTP layer over the manager and the registry.
pub mod Types
pub mod Http
pub mod Middleware
pub mod Base64
pub mod Execs
pub mod Sandboxes
pub mod Signal
pub mod Drain
pub mod Ping
pub mod Stream
