-- ===== src/System.antt =====
-- internal/service/admin/system: the services of the settings that all users share.
pub mod Dict
pub mod Audit
