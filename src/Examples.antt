-- ===== src/Examples.antt =====
-- The programs on a concrete chain: tests, and an instance of each theorem.
mod Chain
mod Accounts
mod Receipts
mod Challenges
mod Lifecycles
mod Rewards
mod Providers
mod Governors
mod Faucets
mod Attestations
mod Windows
