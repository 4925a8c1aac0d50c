-- ===== src/Attestation/Accounts.antt =====
-- The accounts of programs/clawfarm-attestation/src/state/accounts.rs. A 32-byte hash is the number
-- that its bytes spell.
use clawfarm_masterpool.Prelude.{ℕ, Bool, ℤ}
use clawfarm_masterpool.Runtime.{Pubkey}

pub record Config : Type 0 where
  pub authority : Pubkey
  pub pause_authority : Pubkey
  pub challenge_resolver : Pubkey
  pub masterpool_program : Pubkey
  pub challenge_window_seconds : ℤ
  pub challenge_resolution_timeout_seconds : ℤ
  pub is_paused : Bool

pub record ProviderSigner : Type 0 where
  pub signer : Pubkey
  pub provider_wallet : Pubkey
  pub attester_type_mask : ℕ
  pub status : ℕ
  pub valid_from : ℤ
  pub valid_until : ℤ

pub record Receipt : Type 0 where
  pub receipt_hash : ℕ
  pub signer : Pubkey
  pub payer_user : Pubkey
  pub provider_wallet : Pubkey
  pub submitted_at : ℤ
  pub challenge_deadline : ℤ
  pub finalized_at : ℤ
  pub status : ℕ
  pub economics_settled : Bool

pub record Challenge : Type 0 where
  pub receipt : Pubkey
  pub challenger : Pubkey
  pub challenge_type : ℕ
  pub evidence_hash : ℕ
  pub bond_amount : ℕ
  pub opened_at : ℤ
  pub resolved_at : ℤ
  pub status : ℕ
  pub resolution_code : ℕ
