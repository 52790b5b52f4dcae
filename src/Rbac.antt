-- ===== src/Rbac.antt =====
-- internal/service/rbac_service.go: administrators, roles, menus and permissions, and the bindings
-- between them.
pub mod Admins
pub mod Roles
pub mod Menus
pub mod Perms
pub mod Bindings
