-- ===== src/Database.antt =====
-- The tables of app/database.py as lists of rows, in the order in which they were inserted, and the
-- settings of app/config.py that the stores read.
pub mod Tasks
pub mod Workers
pub mod Datasets
pub mod Storage
pub mod Action
pub mod Runs
pub mod Safe
