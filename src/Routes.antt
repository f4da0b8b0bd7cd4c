-- ===== src/Routes.antt =====
-- The routes of app/api/v1: dependencies, validated arguments, one call of a service, and the
-- response model. The proofs are in the modules below.
pub mod Reply
pub mod Accounts
pub mod Bookings
pub mod Reviews
pub mod Notifications
pub mod Dispatch
pub mod Guarded
pub mod Reads
pub mod Consistent
pub mod Journey
pub mod Summaries
pub mod Statuses
pub mod Callers
pub mod Answers
