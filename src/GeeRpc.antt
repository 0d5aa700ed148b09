-- ===== src/GeeRpc.antt =====
-- gee-rpc/day7-registry: the registry of servers, and the discovery that reads it.
pub mod Registry
pub mod Discovery
pub mod Client
pub mod Service
pub mod Server
pub mod Dial
pub mod XClient
