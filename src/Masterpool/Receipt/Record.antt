-- ===== src/Masterpool/Receipt/Record.antt =====
-- `record_mining_from_receipt` of programs/clawfarm-masterpool/src/instructions/receipt.rs.
use Prim.Native.Nat.{min}
use clawfarm_masterpool.Prelude.{
  ℕ, false, not, some, ok, ◌>>=◌, ◌>>◌, ℤ, pos, neg_part, ltb, leb, ltb_ℤ, ◌==◌, if◌then◌else◌,
}
use clawfarm_masterpool.Runtime.{
  Outcome, Pubkey, AccountInfo, Account, Slot, TokenAccount, Mint, Ledger, Runtime, Seeds,
  default_pubkey, signer, seeds_at, vacant, loaded, same_key,
}
use clawfarm_masterpool.Masterpool.Error.{ErrorCode}
use clawfarm_masterpool.Masterpool.Types.{
  ProviderStatus, RewardAccountKind, ReceiptSettlementStatus, provider_status_code,
  settlement_status_code,
}
use clawfarm_masterpool.Masterpool.Accounts.{
  GlobalConfig, ProviderAccount, RewardAccount, ReceiptSettlement,
}
use clawfarm_masterpool.Masterpool.Utils.{
  require, calculate_bps_amount, calculate_claw_amount, checked_add_u64, checked_sub_u64,
  checked_add_i128, require_attestation_caller, validate_supported_receipt_charge,
  require_token_owner, require_token_mint, initialize_reward_account,
}

pub record RecordMiningFromReceipt : Type 0 where
  pub config : Account GlobalConfig
  pub attestation_config : AccountInfo
  pub payer_user : Pubkey
  pub fee_payer : AccountInfo
  pub payment_delegate : AccountInfo
  pub payer_usdc_token : Account TokenAccount
  pub provider_account : Account ProviderAccount
  pub provider_reward_account : Account RewardAccount
  pub user_reward_account : Slot RewardAccount
  pub receipt_settlement : Slot ReceiptSettlement
  pub attestation_receipt : Pubkey
  pub treasury_usdc_vault : Account TokenAccount
  pub provider_pending_usdc_vault : Account TokenAccount
  pub usdc_mint : Account Mint

-- The constraints of the struct, in the order of its fields.
unfoldable pub check_record_mining_from_receipt :
    Runtime → RecordMiningFromReceipt → Outcome (Unit {0})
check_record_mining_from_receipt r a = do
  seeds_at r r.masterpool_id Seeds.config a.config.key
  signer a.attestation_config
  seeds_at r config.attestation_program Seeds.config a.attestation_config.key
  signer a.fee_payer
  signer a.payment_delegate
  seeds_at r r.masterpool_id (Seeds.provider provider_wallet) a.provider_account.key
  seeds_at r r.masterpool_id (Seeds.provider_reward provider_wallet) a.provider_reward_account.key
  seeds_at r r.masterpool_id (Seeds.user_reward a.payer_user) a.user_reward_account.key
  seeds_at r r.masterpool_id (Seeds.receipt_settlement a.attestation_receipt)
      a.receipt_settlement.key
  vacant a.receipt_settlement
  require (a.treasury_usdc_vault.key == config.treasury_usdc_vault) ErrorCode.invalid_vault_account
  require (a.provider_pending_usdc_vault.key == config.provider_pending_usdc_vault)
      ErrorCode.invalid_vault_account
  require (a.usdc_mint.key == config.usdc_mint) ErrorCode.invalid_usdc_mint
  where
    config : GlobalConfig
    config = a.config.value

    provider_wallet : Pubkey
    provider_wallet = a.provider_account.value.provider_wallet

-- The reward account as `init_if_needed` creates it.
abbrev pub blank_reward_account : RewardAccount
blank_reward_account = record {
  initialized = false;
  owner = default_pubkey;
  reward_kind = 0;
  pending_claw_total = 0;
  locked_claw_total = 0;
  released_claw_total = 0;
  claimed_claw_total = 0;
  created_at = pos 0;
  updated_at = pos 0;
}

-- The part of a provider's reward that pays off a negative net position.
unfoldable pub provider_debt_offset : ℤ → ℕ → ℕ
provider_debt_offset net_position reward =
    if ltb_ℤ net_position (pos 0) then min (neg_part net_position) reward else 0

-- A provider whose reward is all offset has its reward account left as it is.
unfoldable pub add_provider_pending : RewardAccount → ℕ → ℤ → Outcome RewardAccount
add_provider_pending account locked now =
    if ltb 0 locked
    then (do
      pending ← checked_add_u64 account.pending_claw_total locked
      ok (record account { pending_claw_total = pending; updated_at = now }))
    else ok account

unfoldable pub record_mining_from_receipt :
    Runtime → RecordMiningFromReceipt → ℕ → Ledger → Outcome (RecordMiningFromReceipt × Ledger)
unfolding require_attestation_caller validate_supported_receipt_charge require_token_owner
    require_token_mint
record_mining_from_receipt r a total_usdc_paid l = do
  let config = a.config.value
  require_attestation_caller config a.attestation_config
  require (not config.pause_receipt_recording) ErrorCode.receipt_recording_paused
  require (ltb 0 total_usdc_paid) ErrorCode.invalid_positive_amount
  validate_supported_receipt_charge total_usdc_paid
  let payer_token = a.payer_usdc_token.value
  require_token_owner payer_token a.payer_user
  require_token_mint payer_token config.usdc_mint
  require (same_key payer_token.delegate a.payment_delegate.key) ErrorCode.invalid_payment_delegate
  require (leb total_usdc_paid payer_token.delegated_amount)
      ErrorCode.insufficient_delegated_allowance
  let provider = a.provider_account.value
  let provider_wallet = provider.provider_wallet
  require (provider.status == provider_status_code ProviderStatus.active)
      ErrorCode.provider_not_active
  treasury_share ← calculate_bps_amount total_usdc_paid config.treasury_usdc_share_bps
  provider_share ← checked_sub_u64 total_usdc_paid treasury_share
  l₁ ←
      r.transfer_checked a.payer_usdc_token.key a.usdc_mint.key a.treasury_usdc_vault.key
        a.payment_delegate.key treasury_share a.usdc_mint.value.decimals l
  l₂ ←
      r.transfer_checked a.payer_usdc_token.key a.usdc_mint.key a.provider_pending_usdc_vault.key
        a.payment_delegate.key provider_share a.usdc_mint.value.decimals l₁
  total_claw_reward ← calculate_claw_amount total_usdc_paid config.exchange_rate_claw_per_usdc_e6
  user_claw ← calculate_bps_amount total_claw_reward config.user_claw_share_bps
  provider_claw_total ← checked_sub_u64 total_claw_reward user_claw
  user_account ←
      initialize_reward_account (loaded a.user_reward_account.value blank_reward_account)
        a.payer_user RewardAccountKind.user r.now
  provider_reward ←
      initialize_reward_account a.provider_reward_account.value provider_wallet
        RewardAccountKind.provider r.now
  user_pending ← checked_add_u64 user_account.pending_claw_total user_claw
  let debt_offset = provider_debt_offset provider.claw_net_position provider_claw_total
  provider_locked_claw ← checked_sub_u64 provider_claw_total debt_offset
  provider_reward' ← add_provider_pending provider_reward provider_locked_claw r.now
  net_position ← checked_add_i128 provider.claw_net_position (pos provider_claw_total)
  pending_usdc ← checked_add_u64 provider.pending_provider_usdc provider_share
  receipt_count ← checked_add_u64 provider.unsettled_receipt_count 1
  ok (
    record a {
      user_reward_account = record a.user_reward_account {
        value =
            some (record user_account { pending_claw_total = user_pending; updated_at = r.now });
      };
      provider_reward_account = record a.provider_reward_account { value = provider_reward' };
      provider_account = record a.provider_account {
        value = record provider {
          claw_net_position = net_position;
          pending_provider_usdc = pending_usdc;
          unsettled_receipt_count = receipt_count;
          updated_at = r.now;
        };
      };
      receipt_settlement = record a.receipt_settlement {
        value = some (record {
          attestation_receipt = a.attestation_receipt;
          payer_user = a.payer_user;
          provider_wallet = provider_wallet;
          usdc_total_paid = total_usdc_paid;
          usdc_to_provider = provider_share;
          usdc_to_treasury = treasury_share;
          claw_to_user = user_claw;
          claw_to_provider_total = provider_claw_total;
          claw_provider_debt_offset = debt_offset;
          claw_to_provider_locked = provider_locked_claw;
          lock_days_snapshot = config.lock_days;
          reward_lock_started_at = pos 0;
          user_claw_released = 0;
          provider_claw_released = 0;
          status = settlement_status_code ReceiptSettlementStatus.recorded;
          created_at = r.now;
          updated_at = r.now;
        });
      };
    },
    l₂,
  )
