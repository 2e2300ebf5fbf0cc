-- ===== src/Models.antt =====
-- src/models: the tables of inventory.rs and dashboard.rs, as rows of the database.
pub mod Rows
pub mod Inventory
pub mod Dashboard
pub mod JsonModel
pub mod Tables
pub mod Methods
mod Tests
