-- ===== src/Lru.antt =====
-- The cache of lib/lru_cache_v1.h: a list of nodes in the order of use, a dictionary of the nodes by key, and a
-- store for what is evicted.
pub mod Nodes
pub mod Order
pub mod Cache
pub mod Served
