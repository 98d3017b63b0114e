-- ===== src/Permission.antt =====
-- Permissions and the inheritance of roles, packages/golib/permission.
pub mod Scopes
pub mod Inheritance
pub mod Granted
pub mod Inherited
mod Tests
