-- ===== src/Dao.antt =====
-- internal/dao/admin: the statements that the services send.
pub mod Role
pub mod User
pub mod Menu
pub mod Dict
