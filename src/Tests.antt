-- ===== src/Tests.antt =====
-- The theorems at concrete inputs.
pub mod Records
pub mod Registries
pub mod Requests
pub mod Sandboxes
pub mod Guests
pub mod Handlers
pub mod Streams
pub mod Middlewares
pub mod Interleavings
pub mod Creations
pub mod Clusters
pub mod Startups
pub mod Agents
