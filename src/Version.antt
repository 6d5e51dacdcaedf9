-- ===== src/Version.antt =====
-- Minecraft version numbers: app/services/minecraft_service.py. `Scan` is the part of `re` that its
-- patterns use, `Grammar` the patterns and `parse_version`, `Compare` the comparison functions.
pub mod Scan
pub mod Grammar
pub mod Compare
pub mod Digits
pub mod Parse
pub mod Order
pub mod Prereleases
pub mod Tests
