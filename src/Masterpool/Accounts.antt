-- ===== src/Masterpool/Accounts.antt =====
-- The accounts of programs/clawfarm-masterpool/src/state/accounts.rs. Unsigned fields are natural
-- numbers and signed ones integers; the operations check the ranges where the source does.
use clawfarm_masterpool.Prelude.{ℕ, Bool, ℤ}
use clawfarm_masterpool.Runtime.{Pubkey}

pub record GlobalConfig : Type 0 where
  pub version : ℕ
  pub admin_authority : Pubkey
  pub attestation_program : Pubkey
  pub claw_mint : Pubkey
  pub usdc_mint : Pubkey
  pub reward_vault : Pubkey
  pub challenge_bond_vault : Pubkey
  pub treasury_usdc_vault : Pubkey
  pub provider_stake_usdc_vault : Pubkey
  pub provider_pending_usdc_vault : Pubkey
  pub exchange_rate_claw_per_usdc_e6 : ℕ
  pub provider_stake_usdc : ℕ
  pub provider_usdc_share_bps : ℕ
  pub treasury_usdc_share_bps : ℕ
  pub user_claw_share_bps : ℕ
  pub provider_claw_share_bps : ℕ
  pub lock_days : ℕ
  pub provider_slash_claw_amount : ℕ
  pub challenger_reward_bps : ℕ
  pub burn_bps : ℕ
  pub challenge_bond_claw_amount : ℕ
  pub genesis_minted : Bool
  pub pause_receipt_recording : Bool
  pub pause_challenge_processing : Bool
  pub pause_finalization : Bool
  pub pause_claims : Bool
  pub created_at : ℤ
  pub updated_at : ℤ

pub record ProviderAccount : Type 0 where
  pub provider_wallet : Pubkey
  pub staked_usdc_amount : ℕ
  pub pending_provider_usdc : ℕ
  pub claw_net_position : ℤ
  pub unsettled_receipt_count : ℕ
  pub unresolved_challenge_count : ℕ
  pub status : ℕ
  pub created_at : ℤ
  pub updated_at : ℤ

pub record RewardAccount : Type 0 where
  pub initialized : Bool
  pub owner : Pubkey
  pub reward_kind : ℕ
  pub pending_claw_total : ℕ
  pub locked_claw_total : ℕ
  pub released_claw_total : ℕ
  pub claimed_claw_total : ℕ
  pub created_at : ℤ
  pub updated_at : ℤ

pub record ReceiptSettlement : Type 0 where
  pub attestation_receipt : Pubkey
  pub payer_user : Pubkey
  pub provider_wallet : Pubkey
  pub usdc_total_paid : ℕ
  pub usdc_to_provider : ℕ
  pub usdc_to_treasury : ℕ
  pub claw_to_user : ℕ
  pub claw_to_provider_total : ℕ
  pub claw_provider_debt_offset : ℕ
  pub claw_to_provider_locked : ℕ
  pub lock_days_snapshot : ℕ
  pub reward_lock_started_at : ℤ
  pub user_claw_released : ℕ
  pub provider_claw_released : ℕ
  pub status : ℕ
  pub created_at : ℤ
  pub updated_at : ℤ

pub record ChallengeBondRecord : Type 0 where
  pub attestation_challenge : Pubkey
  pub attestation_receipt : Pubkey
  pub challenger : Pubkey
  pub payer_user : Pubkey
  pub provider_wallet : Pubkey
  pub bond_amount : ℕ
  pub slash_claw_amount_snapshot : ℕ
  pub challenger_reward_bps_snapshot : ℕ
  pub burn_bps_snapshot : ℕ
  pub challenger_reward_amount : ℕ
  pub burn_amount : ℕ
  pub status : ℕ
  pub created_at : ℤ
  pub updated_at : ℤ

pub record FaucetConfig : Type 0 where
  pub admin_authority : Pubkey
  pub enabled : Bool
  pub faucet_claw_vault : Pubkey
  pub faucet_usdc_vault : Pubkey
  pub max_claw_per_claim : ℕ
  pub max_usdc_per_claim : ℕ
  pub max_claw_per_wallet_per_day : ℕ
  pub max_usdc_per_wallet_per_day : ℕ
  pub max_claw_global_per_day : ℕ
  pub max_usdc_global_per_day : ℕ
  pub created_at : ℤ
  pub updated_at : ℤ

pub record FaucetGlobalState : Type 0 where
  pub current_day_index : ℤ
  pub claw_claimed_today : ℕ
  pub usdc_claimed_today : ℕ
  pub updated_at : ℤ

pub record FaucetUserState : Type 0 where
  pub owner : Pubkey
  pub current_day_index : ℤ
  pub claw_claimed_today : ℕ
  pub usdc_claimed_today : ℕ
  pub created_at : ℤ
  pub updated_at : ℤ
