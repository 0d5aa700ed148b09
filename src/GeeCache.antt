-- ===== src/GeeCache.antt =====
-- gee-cache/day7-proto-buf/geecache: the distributed cache.
pub mod Lru
pub mod ConsistentHash
pub mod SingleFlight
pub mod Group
pub mod Pool
