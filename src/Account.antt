-- ===== src/Account.antt =====
-- internal/service/admin/account: users, roles and menus.
pub mod Types
pub mod Runtime
pub mod Context
pub mod Log
pub mod Password
pub mod Role
pub mod User
pub mod Menu
pub mod Requests
pub mod Changes
pub mod Outcome
pub mod Refinement
pub mod Handled
pub mod Audit
pub mod Grants
pub mod Sender
pub mod Session
mod Tests
pub mod Consistency
