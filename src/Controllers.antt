-- ===== src/Controllers.antt =====
-- controllers/tor: the three reconcilers and what they share.
pub mod HashPassword
pub mod Ensure
pub mod Equal
pub mod Objects
pub mod Monitor
pub mod Tor
pub mod OnionService
pub mod OnionBalancedService
