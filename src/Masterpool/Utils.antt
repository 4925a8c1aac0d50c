-- ===== src/Masterpool/Utils.antt =====
-- programs/clawfarm-masterpool/src/utils.rs: checked arithmetic on the machine integers, and the
-- checks that the instructions share. Its children prove what the arithmetic computes.
mod Arith
mod Checks
pub mod Bounds
pub mod Vesting
unfoldable pub use Arith.*
unfoldable pub use Checks.*
