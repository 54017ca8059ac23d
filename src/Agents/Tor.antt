-- ===== src/Agents/Tor.antt =====
-- agents/tor
pub mod Config
pub mod Text
pub mod Files
pub mod Controller
