-- ===== src/Kube.antt =====
-- The Kubernetes API as the controllers use it: the objects' fields that the code reads or writes,
-- the interface of the client libraries, and a cluster in memory that implements it.
pub mod Types
pub mod Client
pub mod Memory
pub mod Full
