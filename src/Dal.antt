-- ===== src/Dal.antt =====
-- internal/dal and internal/dal/repo: rows, tables, transactions.
pub mod Model
pub mod Tx
