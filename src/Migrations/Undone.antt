-- ===== src/Migrations/Undone.antt =====
-- A downgrade undoes its upgrade.
pub mod Initial
pub mod PasswordHash
pub mod Notifications
pub mod All
