-- ===== src/Session.antt =====
-- app/db/session.py and SQLAlchemy's Session as the services use it: a transaction over the
-- database, whose writes the others see after `commit` only. The session maker sets
-- `autoflush=False`, so a service's changes to a loaded row are written when it commits.
mod Monad
pub mod Store
pub mod Laws
pub mod Commit
pub use Monad.*
unfoldable pub use Store.*
