-- ===== src/Masterpool/Utils/Checks.antt =====
-- The validations of utils.rs.
use clawfarm_masterpool.Prelude.{
  ℕ, ◌+◌, ◌^◌, true, ◌&&◌, none, some, ok, err, ◌>>=◌, ◌>>◌, map_err, ℤ, ltb, leb, ◌==◌,
  if◌then◌else◌,
}
use clawfarm_masterpool.Runtime.{
  Error, AnchorError, Outcome, Pubkey, AccountInfo, Slot, TokenAccount, Mint,
}
use clawfarm_masterpool.Masterpool.Error.{ErrorCode}
use clawfarm_masterpool.Masterpool.Constants.{
  bps_scale, claw_decimals, usdc_decimals, max_receipt_usdc_atomic,
}
use clawfarm_masterpool.Masterpool.Types.{
  Phase1ConfigParams, FaucetLimits, RewardAccountKind, reward_kind_code,
}
use clawfarm_masterpool.Masterpool.Accounts.{GlobalConfig, RewardAccount}
use clawfarm_masterpool.Masterpool.Utils.Arith.{
  require, fail, calculate_bps_amount, calculate_claw_amount, checked_sub_u64,
}

unfoldable pub validate_phase1_param_bounds : Phase1ConfigParams → Outcome (Unit {0})
unfolding calculate_bps_amount calculate_claw_amount checked_sub_u64
validate_phase1_param_bounds p = do
  max_treasury_usdc ←
      map_err (calculate_bps_amount max_receipt_usdc_atomic p.treasury_usdc_share_bps) invalid
  max_provider_usdc ← map_err (checked_sub_u64 max_receipt_usdc_atomic max_treasury_usdc) invalid
  max_total_claw ←
      map_err (calculate_claw_amount max_receipt_usdc_atomic p.exchange_rate_claw_per_usdc_e6)
        invalid
  max_user_claw ← map_err (calculate_bps_amount max_total_claw p.user_claw_share_bps) invalid
  max_provider_claw ← map_err (checked_sub_u64 max_total_claw max_user_claw) invalid
  challenger_reward ←
      map_err (calculate_bps_amount p.provider_slash_claw_amount p.challenger_reward_bps) invalid
  burn_amount ← map_err (checked_sub_u64 p.provider_slash_claw_amount challenger_reward) invalid
  ok tt
  where
    invalid : Error
    invalid = Error.masterpool ErrorCode.invalid_governance_parameters

-- `checked_add` on `u32`.
unfoldable pub checked_add_u32 : ℕ → ℕ → Outcome ℕ
checked_add_u32 a b = if ltb (a + b) (2 ^ 32) then ok (a + b) else fail ErrorCode.math_overflow

unfoldable pub validate_phase1_params : Phase1ConfigParams → Outcome (Unit {0})
unfolding validate_phase1_param_bounds checked_add_u32
validate_phase1_params p = do
  usdc_split_total ← checked_add_u32 p.provider_usdc_share_bps p.treasury_usdc_share_bps
  claw_split_total ← checked_add_u32 p.user_claw_share_bps p.provider_claw_share_bps
  challenge_split_total ← checked_add_u32 p.challenger_reward_bps p.burn_bps
  require
      (ltb 0 p.exchange_rate_claw_per_usdc_e6
        && ltb 0 p.provider_stake_usdc
        && ltb 0 p.lock_days
        && ltb 0 p.provider_slash_claw_amount
        && ltb 0 p.challenge_bond_claw_amount)
      ErrorCode.invalid_positive_amount
  require (usdc_split_total == bps_scale) ErrorCode.invalid_split_invariant
  require (claw_split_total == bps_scale) ErrorCode.invalid_split_invariant
  require (challenge_split_total == bps_scale) ErrorCode.invalid_split_invariant
  validate_phase1_param_bounds p

unfoldable pub validate_supported_receipt_charge : ℕ → Outcome (Unit {0})
validate_supported_receipt_charge total_usdc_paid =
    require (leb total_usdc_paid max_receipt_usdc_atomic) ErrorCode.receipt_charge_too_large

unfoldable pub require_phase1_mint_decimals : Mint → Mint → Outcome (Unit {0})
require_phase1_mint_decimals claw_mint usdc_mint =
    require (claw_mint.decimals == claw_decimals && usdc_mint.decimals == usdc_decimals)
      ErrorCode.invalid_mint_decimals

unfoldable pub validate_faucet_limits : FaucetLimits → Outcome (Unit {0})
validate_faucet_limits l = do
  require
      (ltb 0 l.max_claw_per_claim
        && ltb 0 l.max_usdc_per_claim
        && ltb 0 l.max_claw_per_wallet_per_day
        && ltb 0 l.max_usdc_per_wallet_per_day
        && ltb 0 l.max_claw_global_per_day
        && ltb 0 l.max_usdc_global_per_day)
      ErrorCode.invalid_faucet_limits
  require
      (leb l.max_claw_per_claim l.max_claw_per_wallet_per_day
        && leb l.max_usdc_per_claim l.max_usdc_per_wallet_per_day)
      ErrorCode.invalid_faucet_limits
  require
      (leb l.max_claw_per_wallet_per_day l.max_claw_global_per_day
        && leb l.max_usdc_per_wallet_per_day l.max_usdc_global_per_day)
      ErrorCode.invalid_faucet_limits

unfoldable pub require_attestation_caller : GlobalConfig → AccountInfo → Outcome (Unit {0})
require_attestation_caller config attestation_config =
    require (attestation_config.owner == config.attestation_program && attestation_config.is_signer)
      ErrorCode.unauthorized_attestation_caller

unfoldable pub require_token_owner : TokenAccount → Pubkey → Outcome (Unit {0})
require_token_owner token_account owner =
    require (token_account.owner == owner) ErrorCode.invalid_token_owner

unfoldable pub require_token_mint : TokenAccount → Pubkey → Outcome (Unit {0})
require_token_mint token_account mint =
    require (token_account.mint == mint) ErrorCode.invalid_token_mint

-- `accessor::authority` and `accessor::mint` slice the bytes of an account without checking that it is a
-- token account: `some` has the fields that its bytes spell, whatever the account is, and `none` is an
-- account too short to slice, where the source panics and the instruction aborts. The error stands for that.
unfoldable pub read_token : Slot TokenAccount → Outcome TokenAccount
read_token s = elim s.value [
  | some a ↦ ok a
  | none ↦ err (Error.anchor AnchorError.account_not_initialized)
]

unfoldable pub require_token_owner_info : Slot TokenAccount → Pubkey → Outcome (Unit {0})
unfolding read_token
require_token_owner_info token_account owner = do
  a ← read_token token_account
  require (a.owner == owner) ErrorCode.invalid_token_owner

unfoldable pub require_token_mint_info : Slot TokenAccount → Pubkey → Outcome (Unit {0})
unfolding read_token
require_token_mint_info token_account mint = do
  a ← read_token token_account
  require (a.mint == mint) ErrorCode.invalid_token_mint

-- The account as it is after the call.
unfoldable pub initialize_reward_account :
    RewardAccount → Pubkey → RewardAccountKind → ℤ → Outcome RewardAccount
initialize_reward_account reward_account owner reward_kind now =
    if reward_account.initialized
    then (do
      require (reward_account.owner == owner) ErrorCode.invalid_reward_account_owner
      require (reward_account.reward_kind == reward_kind_code reward_kind)
          ErrorCode.invalid_reward_account_kind
      ok reward_account)
    else ok (record {
      initialized = true;
      owner = owner;
      reward_kind = reward_kind_code reward_kind;
      pending_claw_total = 0;
      locked_claw_total = 0;
      released_claw_total = 0;
      claimed_claw_total = 0;
      created_at = now;
      updated_at = now;
    })
