-- ===== src/Database.antt =====
-- The database as the services see it through an `AsyncSession` of SQLAlchemy: the tables, the
-- session with its open transaction, and actions that read, flush and raise.
mod State
mod Actions
mod Invariants
pub use State.*
unfoldable pub use Actions.*
pub use Invariants.*
