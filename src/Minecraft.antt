-- ===== src/Minecraft.antt =====
-- The catalogue of Minecraft versions: `get_minecraft_versions` of app/services/minecraft_service.py with its
-- cache, the schema of app/schemas/minecraft.py, and the route of app/api/v1/minecraft.py.
pub mod Catalogue
pub mod Uncached
pub mod Since
pub mod Tests
