-- ===== src/GeeWeb.antt =====
-- gee-web/day7-panic-recover/gee: the web framework.
pub mod Trie
pub mod Router
pub mod Context
pub mod Engine
