-- ===== src/Controllers/Tor.antt =====
-- The reconciler of Tor resources, controllers/tor/tor_*.go.
pub mod Rbac
pub mod Services
pub mod Torfile
pub mod Secret
pub mod Deployment
pub mod Reconcile
