-- ===== src/Masterpool.antt =====
-- The masterpool program, programs/clawfarm-masterpool/src.
pub mod Error
pub mod Constants
pub mod Types
pub mod Accounts
pub mod Utils
pub mod Receipt
pub mod Challenge
pub mod Reward
pub mod Provider
pub mod Config
pub mod Faucet
pub mod Lifecycle
