-- ===== src/Tests.antt =====
-- Runs on small databases, and the theorems at such data.
mod Data
mod Bookings
mod Cancellation
mod Lifecycle
mod Notifications
mod Reviews
mod Jobs
mod Auth
mod Summary
mod Api
mod Providers
mod Schemas
mod Routes
mod Migrations
mod Scheduler
