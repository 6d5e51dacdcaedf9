-- ===== src/Miniverses.antt =====
-- Miniverses: app/services/miniverse_service.py (`Setup`, `Lifecycle`, `Update`, `Upgrade`),
-- app/services/docker_service.py (`Docker`), app/services/proxy_service.py (`Proxy`),
-- app/api/v1/miniverses.py (`Api`, `Changes`) and the start-up of app/main.py (`Startup`), over the
-- database session and the components around it (`World`).
pub mod World
pub mod Docker
pub mod Proxy
pub mod Setup
pub mod Keeps
pub mod Lifecycle
pub mod Uuid
pub mod Api
pub mod Guards
pub mod Update
pub mod Upgrade
pub mod Changes
pub mod Renames
pub mod Restarts
pub mod Routes
pub mod Running
pub mod Unsafe
pub mod Upgrades
pub mod Startup
pub mod Started
pub mod Samples
pub mod Tests
pub mod UpgradeTests
pub mod StartTests
