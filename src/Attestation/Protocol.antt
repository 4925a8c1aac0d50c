-- ===== src/Attestation/Protocol.antt =====
-- The two programs together.
pub mod Agreement
pub mod Preimage
pub mod Signature
pub mod Submission
pub mod Window
pub mod Access
