-- ===== src/Agents/OnionBalance.antt =====
-- agents/onionbalance
pub mod Config
pub mod Controller
