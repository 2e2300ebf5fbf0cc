-- ===== src/Allocation.antt =====
-- Resources, who holds them, and the allocator that hands them out.
pub mod Db
pub mod Handle
pub mod Allocator
