-- ===== src/Masterpool/Reward.antt =====
-- programs/clawfarm-masterpool/src/instructions/reward.rs: the two instructions, and their laws.
mod Release
mod Claim
pub mod Releasing
pub mod Claiming
unfoldable pub use Release.*
unfoldable pub use Claim.*
