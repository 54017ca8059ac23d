-- ===== src/Agents.antt =====
-- agents: the programs that run in the pods and write the configuration of the daemons.
pub mod Daemon
pub mod Manager
pub mod Queue
pub mod OnionBalance
pub mod Tor
