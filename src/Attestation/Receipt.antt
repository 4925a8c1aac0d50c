-- ===== src/Attestation/Receipt.antt =====
-- programs/clawfarm-attestation/src/instructions/receipt.rs: its instructions.
mod Submit
mod Finalize
unfoldable pub use Submit.*
unfoldable pub use Finalize.*
