-- ===== src/GeeBolt.antt =====
-- gee-bolt/day3-tree: the pages and the B+tree nodes of the embedded store.
pub mod Node
