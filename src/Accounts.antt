-- ===== src/Accounts.antt =====
-- User accounts: app/services/user_service.py (`Service`), app/services/auth_service.py (`Auth`)
-- and app/api/v1/users.py (`Api`).
pub mod Service
pub mod Auth
pub mod Api
pub mod Keys
pub mod Current
pub mod Rows
pub mod Admins
pub mod Lockout
pub mod Tests
