-- ===== src/Rbac.antt =====
-- pkg/socket/cmd/rbac: rules, roles, the subjects that are bound to them, and the cookie that keeps
-- the roles of a user.
pub mod Role
pub mod Action
pub mod Binding
pub mod Authorizer
pub mod Unique
pub mod Cookie
mod Tests
