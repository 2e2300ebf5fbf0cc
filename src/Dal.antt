-- ===== src/Dal.antt =====
-- src/dal/src/lib.rs: the database layer.
pub mod Transaction
pub mod Migrations
pub mod Table
