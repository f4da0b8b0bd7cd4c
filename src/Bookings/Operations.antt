-- ===== src/Bookings/Operations.antt =====
-- The operations of booking_service.py, each as one transaction over the session.
pub mod Requests
pub mod Changes
unfoldable pub use Requests.*
unfoldable pub use Changes.*
