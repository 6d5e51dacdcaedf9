-- ===== src/Migrations.antt =====
-- The migrations of alembic/versions: what they make of a database schema, and what undoing them does.
pub mod Schema
pub mod Revisions
pub mod Columns
pub mod Declared
pub mod Beside
pub mod Upgraded
pub mod Undone
pub mod Tests
