-- ===== src/Mods.antt =====
-- Mods and Modrinth: app/schemas/mods.py (`Schema`, `Decoding`), app/services/mods_service.py (`Facets`,
-- `Queries`, `Service`, `Updates`) and app/api/v1/mods.py (`Api`).
pub mod Schema
pub mod Decoding
pub mod Encoding
pub mod Roundtrips
pub mod Facets
pub mod Queries
pub mod Service
pub mod Updates
pub mod Api
pub mod Newest
pub mod Failures
pub mod Samples
pub mod Tests
