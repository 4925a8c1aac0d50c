-- ===== src/Masterpool/Provider.antt =====
-- programs/clawfarm-masterpool/src/instructions/provider.rs: the two instructions, and their laws.
mod Register
mod Exit
pub mod Obligations
unfoldable pub use Register.*
unfoldable pub use Exit.*
