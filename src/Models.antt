-- ===== src/Models.antt =====
-- app/models: the enumerations, the four tables and the constraints that the database enforces.
mod Enums
mod Tables
pub mod Constraints
pub use Enums.*
pub use Tables.*
