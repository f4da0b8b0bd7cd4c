-- ===== src/Summary.antt =====
-- app/services/review_summary_service.py and app/workers/review_worker.py: jobs that a Redis list
-- hands to a worker. The proofs are in the modules below.
pub mod Redis
pub mod Service
pub mod Worker
pub mod Figures
pub mod Finish
pub mod Drain
pub mod Journey
