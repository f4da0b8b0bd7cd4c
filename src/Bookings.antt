-- ===== src/Bookings.antt =====
-- app/services/booking_service.py. The state machine is in `Transitions`, the operations in
-- `Operations`, and what is proved of them in the other modules.
pub mod Transitions
pub mod Operations
pub mod Lifecycle
pub mod Atomic
pub mod Schedule
pub mod Keeps
pub mod Race
pub mod Create
pub mod Fresh
pub mod Save
pub mod Update
pub mod Told
pub mod Cancel
pub mod Access
