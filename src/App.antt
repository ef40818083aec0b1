-- ===== src/App.antt =====
-- The role management of app/roles.go.
pub mod Roles
