-- ===== src/Routes/Consistent.antt =====
-- What holds of the database between any two events: requests to the routes, and turns of the
-- scheduler. The children treat the services one by one.
pub mod Completed
pub mod Served
pub mod Frames
pub mod BookingFrames
pub mod JobFrames
pub mod Backed
pub mod Untouched
pub mod Marks
pub mod Users
pub mod Invariant
pub mod Services
pub mod Handled
pub mod Events
