-- ===== src/Masterpool/Faucet.antt =====
-- programs/clawfarm-masterpool/src/instructions/faucet.rs: its instructions, and their laws.
mod Daily
mod Claim
mod Admin
pub mod Caps
unfoldable pub use Daily.*
unfoldable pub use Claim.*
unfoldable pub use Admin.*
