-- ===== src/Masterpool/Challenge.antt =====
-- programs/clawfarm-masterpool/src/instructions/challenge.rs: the two instructions, and their laws.
mod Bond
mod Resolve
pub mod Bonding
pub mod Resolution
pub mod Payout
unfoldable pub use Bond.*
unfoldable pub use Resolve.*
