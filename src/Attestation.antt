-- ===== src/Attestation.antt =====
-- The attestation program, programs/clawfarm-attestation/src.
pub mod Error
pub mod Types
pub mod Accounts
pub mod Utils
pub mod Admin
pub mod Receipt
pub mod Challenge
pub mod Protocol
