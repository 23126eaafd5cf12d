-- ===== src/Store.antt =====
-- internal/store: the SQLite tables that routing reads and writes, as lists of rows in id order.
pub mod Channels
pub mod Models
mod Tests
