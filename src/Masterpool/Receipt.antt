-- ===== src/Masterpool/Receipt.antt =====
-- programs/clawfarm-masterpool/src/instructions/receipt.rs: the two instructions, and their laws.
mod Record
mod Settle
pub mod Charge
pub mod Progress
pub mod Payment
pub mod Settlement
unfoldable pub use Record.*
unfoldable pub use Settle.*
