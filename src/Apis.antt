-- ===== src/Apis.antt =====
-- The custom resources of apis/tor/v1alpha2 and the controller's configuration of apis/config/v2.
pub mod Types
pub mod Format
pub mod TorUtil
pub mod OnionServiceUtil
pub mod OnionBalancedServiceUtil
pub mod V1alpha1
