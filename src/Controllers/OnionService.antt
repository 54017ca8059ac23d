-- ===== src/Controllers/OnionService.antt =====
-- The OnionService reconciler: controllers/tor/onionservice_*.go
pub mod Rbac
pub mod Services
pub mod Clients
pub mod Secret
pub mod Deployment
pub mod Reconcile
