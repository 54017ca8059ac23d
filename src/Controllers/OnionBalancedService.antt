-- ===== src/Controllers/OnionBalancedService.antt =====
-- The OnionBalancedService reconciler: controllers/tor/onionbalancedservice_*.go
pub mod Rbac
pub mod Services
pub mod Secret
pub mod ConfigMap
pub mod Deployment
pub mod Backends
pub mod Reconcile
