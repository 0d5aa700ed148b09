-- ===== src/GeeOrm.antt =====
-- gee-orm/day7-migrate: the statements that the ORM builds, its tables and its sessions.
pub mod Clause
pub mod Schema
pub mod Session
pub mod Engine
