-- ===== src/Auth.antt =====
-- Who a request is and what it may do: app/core/roles.py, app/core/permissions.py,
-- app/core/security.py, app/services/api_key_service.py and app/dependencies.py.
pub mod Roles
pub mod Permissions
pub mod Secrets
pub mod ApiKeys
pub mod Principals
