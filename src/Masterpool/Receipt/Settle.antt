-- ===== src/Masterpool/Receipt/Settle.antt =====
-- `settle_finalized_receipt` of programs/clawfarm-masterpool/src/instructions/receipt.rs.
use clawfarm_masterpool.Prelude.{ℕ, not, ok, ◌>>=◌, ◌>>◌, ℤ, ◌==◌}
use clawfarm_masterpool.Runtime.{
  Outcome, Pubkey, AccountInfo, Account, TokenAccount, Mint, Ledger, Runtime, Seeds, signer,
  seeds_at,
}
use clawfarm_masterpool.Masterpool.Error.{ErrorCode}
use clawfarm_masterpool.Masterpool.Constants.{attestation_receipt_status_finalized}
use clawfarm_masterpool.Masterpool.Types.{ReceiptSettlementStatus, settlement_status_code}
use clawfarm_masterpool.Masterpool.Accounts.{
  GlobalConfig, ProviderAccount, RewardAccount, ReceiptSettlement,
}
use clawfarm_masterpool.Masterpool.Utils.{
  require, checked_add_u64, checked_sub_u64, require_attestation_caller, require_token_owner,
  require_token_mint,
}

pub record SettleFinalizedReceipt : Type 0 where
  pub config : Account GlobalConfig
  pub attestation_config : AccountInfo
  pub attestation_receipt : Pubkey
  pub receipt_settlement : Account ReceiptSettlement
  pub provider_account : Account ProviderAccount
  pub provider_reward_account : Account RewardAccount
  pub user_reward_account : Account RewardAccount
  pub provider_pending_usdc_vault : Account TokenAccount
  pub provider_destination_usdc : Account TokenAccount
  pub usdc_mint : Account Mint
  pub pool_authority : Pubkey

-- The constraints of the struct, in the order of its fields.
unfoldable pub check_settle_finalized_receipt :
    Runtime → SettleFinalizedReceipt → Outcome (Unit {0})
check_settle_finalized_receipt r a = do
  seeds_at r r.masterpool_id Seeds.config a.config.key
  signer a.attestation_config
  seeds_at r config.attestation_program Seeds.config a.attestation_config.key
  seeds_at r r.masterpool_id (Seeds.receipt_settlement a.attestation_receipt)
      a.receipt_settlement.key
  seeds_at r r.masterpool_id (Seeds.provider settlement.provider_wallet) a.provider_account.key
  require (a.provider_account.value.provider_wallet == settlement.provider_wallet)
      ErrorCode.invalid_provider_account
  seeds_at r r.masterpool_id (Seeds.provider_reward settlement.provider_wallet)
      a.provider_reward_account.key
  seeds_at r r.masterpool_id (Seeds.user_reward settlement.payer_user) a.user_reward_account.key
  require (a.provider_pending_usdc_vault.key == config.provider_pending_usdc_vault)
      ErrorCode.invalid_vault_account
  require (a.usdc_mint.key == config.usdc_mint) ErrorCode.invalid_usdc_mint
  seeds_at r r.masterpool_id Seeds.pool_authority a.pool_authority
  where
    config : GlobalConfig
    config = a.config.value

    settlement : ReceiptSettlement
    settlement = a.receipt_settlement.value

-- The move of a settled reward from pending to locked.
unfoldable pub lock_pending : RewardAccount → ℕ → ℤ → Outcome RewardAccount
lock_pending account amount now = do
  pending ← checked_sub_u64 account.pending_claw_total amount
  locked ← checked_add_u64 account.locked_claw_total amount
  ok (record account { pending_claw_total = pending; locked_claw_total = locked; updated_at = now })

unfoldable pub settle_finalized_receipt :
    Runtime → SettleFinalizedReceipt → ℕ → Ledger → Outcome (SettleFinalizedReceipt × Ledger)
unfolding require_attestation_caller require_token_owner require_token_mint
settle_finalized_receipt r a attestation_receipt_status l = do
  let config = a.config.value
  require_attestation_caller config a.attestation_config
  require (not config.pause_finalization) ErrorCode.finalization_paused
  require (attestation_receipt_status == attestation_receipt_status_finalized)
      ErrorCode.invalid_attestation_receipt_status
  let settlement = a.receipt_settlement.value
  require (settlement.attestation_receipt == a.attestation_receipt)
      ErrorCode.invalid_receipt_settlement
  require (settlement.status == settlement_status_code ReceiptSettlementStatus.recorded)
      ErrorCode.invalid_receipt_settlement_state
  let provider = a.provider_account.value
  require (provider.provider_wallet == settlement.provider_wallet)
      ErrorCode.invalid_provider_account
  user_account ← lock_pending a.user_reward_account.value settlement.claw_to_user r.now
  provider_reward ←
      lock_pending a.provider_reward_account.value settlement.claw_to_provider_locked r.now
  require_token_owner a.provider_destination_usdc.value settlement.provider_wallet
  require_token_mint a.provider_destination_usdc.value config.usdc_mint
  l' ←
      r.transfer_checked a.provider_pending_usdc_vault.key a.usdc_mint.key
        a.provider_destination_usdc.key a.pool_authority settlement.usdc_to_provider
        a.usdc_mint.value.decimals l
  pending_usdc ← checked_sub_u64 provider.pending_provider_usdc settlement.usdc_to_provider
  receipt_count ← checked_sub_u64 provider.unsettled_receipt_count 1
  ok (
    record a {
      user_reward_account = record a.user_reward_account { value = user_account };
      provider_reward_account = record a.provider_reward_account { value = provider_reward };
      provider_account = record a.provider_account {
        value = record provider {
          pending_provider_usdc = pending_usdc;
          unsettled_receipt_count = receipt_count;
          updated_at = r.now;
        };
      };
      receipt_settlement = record a.receipt_settlement {
        value = record settlement {
          reward_lock_started_at = r.now;
          status = settlement_status_code ReceiptSettlementStatus.finalized_settled;
          updated_at = r.now;
        };
      };
    },
    l',
  )
