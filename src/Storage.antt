-- ===== src/Storage.antt =====
-- ufoundry/storage: the database, table by table. A table holds its rows in the order of their
-- ids, which SQLite draws upwards; times are numbers.
pub mod Rows
pub mod Queue
pub mod Sessions
pub mod Tasks
mod Tests
