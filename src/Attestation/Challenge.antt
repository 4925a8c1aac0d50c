-- ===== src/Attestation/Challenge.antt =====
-- programs/clawfarm-attestation/src/instructions/challenge.rs: its instructions.
mod Opening
mod Resolving
unfoldable pub use Opening.*
unfoldable pub use Resolving.*
