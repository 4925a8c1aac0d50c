-- ===== src/Runtime.antt =====
-- The chain beneath the two programs: errors, accounts, the ledger of the token program, and the
-- record of outside operations with the laws that the token program documents.
mod Failure
mod Defs
mod Constraints
pub mod Optional
pub use Failure.*
unfoldable pub use Defs.*
unfoldable pub use Constraints.*
