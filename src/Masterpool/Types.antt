-- ===== src/Masterpool/Types.antt =====
-- The enums and argument records of programs/clawfarm-masterpool/src/state/types.rs. An account
-- stores an enum as its `u8`, so each enum has a module with its code and, where the source has one,
-- the conversion back.
use clawfarm_masterpool.Prelude.{ℕ, ok, err, ◌==◌, if◌then◌else◌}
use clawfarm_masterpool.Runtime.{Error, Outcome}
use clawfarm_masterpool.Masterpool.Error.{ErrorCode}

pub record Phase1ConfigParams : Type 0 where
  pub exchange_rate_claw_per_usdc_e6 : ℕ
  pub provider_stake_usdc : ℕ
  pub provider_usdc_share_bps : ℕ
  pub treasury_usdc_share_bps : ℕ
  pub user_claw_share_bps : ℕ
  pub provider_claw_share_bps : ℕ
  pub lock_days : ℕ
  pub provider_slash_claw_amount : ℕ
  pub challenger_reward_bps : ℕ
  pub burn_bps : ℕ
  pub challenge_bond_claw_amount : ℕ

pub data ProviderStatus : Type 0 where
  active exited : ProviderStatus

pub data RewardAccountKind : Type 0 where
  user provider : RewardAccountKind

pub data ReleaseTarget : Type 0 where
  user provider : ReleaseTarget

pub data ReceiptSettlementStatus : Type 0 where
  recorded finalized_settled challenged_reverted : ReceiptSettlementStatus

pub data ChallengeBondStatus : Type 0 where
  locked returned burned : ChallengeBondStatus

pub record FaucetLimits : Type 0 where
  pub max_claw_per_claim : ℕ
  pub max_usdc_per_claim : ℕ
  pub max_claw_per_wallet_per_day : ℕ
  pub max_usdc_per_wallet_per_day : ℕ
  pub max_claw_global_per_day : ℕ
  pub max_usdc_global_per_day : ℕ

pub record FaucetClaimArgs : Type 0 where
  pub claw_amount : ℕ
  pub usdc_amount : ℕ

abbrev pub provider_status_code : ProviderStatus → ℕ
provider_status_code ProviderStatus.active = 0
provider_status_code ProviderStatus.exited = 1

abbrev pub reward_kind_code : RewardAccountKind → ℕ
reward_kind_code RewardAccountKind.user = 0
reward_kind_code RewardAccountKind.provider = 1

abbrev pub settlement_status_code : ReceiptSettlementStatus → ℕ
settlement_status_code ReceiptSettlementStatus.recorded = 0
settlement_status_code ReceiptSettlementStatus.finalized_settled = 1
settlement_status_code ReceiptSettlementStatus.challenged_reverted = 2

abbrev pub bond_status_code : ChallengeBondStatus → ℕ
bond_status_code ChallengeBondStatus.locked = 0
bond_status_code ChallengeBondStatus.returned = 1
bond_status_code ChallengeBondStatus.burned = 2

-- `ReleaseTarget::try_from`
unfoldable pub release_target_of : ℕ → Outcome ReleaseTarget
release_target_of value =
    if value == 0
    then ok ReleaseTarget.user
    else if value == 1
    then ok ReleaseTarget.provider
    else err (Error.masterpool ErrorCode.invalid_reward_account_kind)
