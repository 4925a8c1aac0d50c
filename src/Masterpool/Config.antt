-- ===== src/Masterpool/Config.antt =====
-- programs/clawfarm-masterpool/src/instructions/config.rs: its instructions, and their laws.
mod Params
mod Genesis
pub mod Governance
unfoldable pub use Params.*
unfoldable pub use Genesis.*
