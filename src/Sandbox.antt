-- ===== src/Sandbox.antt =====
-- adapter/internal/sandbox/manager.go: the sandboxes that the adapter runs.
pub mod Table
pub mod Manager
