-- ===== src/Migrations.antt =====
-- alembic/versions: the three revisions as changes of a catalog, and what the schema that they
-- leave means for the rows of app/models.
pub mod Catalog
pub mod Initial
pub mod PasswordHash
pub mod Notifications
pub mod Undone
pub mod Rows
pub mod Insert
pub mod Enforced
pub mod Backfill
