-- ===== src/Masterpool/Provider/Exit.antt =====
-- `exit_provider` of programs/clawfarm-masterpool/src/instructions/provider.rs.
use clawfarm_masterpool.Prelude.{◌&&◌, ok, ◌>>=◌, ◌>>◌, pos, leb_ℤ, ◌==◌}
use clawfarm_masterpool.Runtime.{
  Outcome, Pubkey, AccountInfo, Account, TokenAccount, Mint, Ledger, Runtime, Seeds, signer,
  seeds_at,
}
use clawfarm_masterpool.Masterpool.Error.{ErrorCode}
use clawfarm_masterpool.Masterpool.Types.{ProviderStatus, provider_status_code}
use clawfarm_masterpool.Masterpool.Accounts.{GlobalConfig, ProviderAccount}
use clawfarm_masterpool.Masterpool.Utils.{require, checked_sub_u64}

pub record ExitProvider : Type 0 where
  pub config : Account GlobalConfig
  pub provider_account : Account ProviderAccount
  pub provider_wallet : AccountInfo
  pub provider_stake_usdc_vault : Account TokenAccount
  pub provider_destination_usdc : Account TokenAccount
  pub usdc_mint : Account Mint
  pub pool_authority : Pubkey

-- The constraints of the struct, in the order of its fields.
unfoldable pub check_exit_provider : Runtime → ExitProvider → Outcome (Unit {0})
check_exit_provider r a = do
  seeds_at r r.masterpool_id Seeds.config a.config.key
  seeds_at r r.masterpool_id (Seeds.provider a.provider_wallet.key) a.provider_account.key
  require (a.provider_account.value.provider_wallet == a.provider_wallet.key)
      ErrorCode.invalid_provider_account
  signer a.provider_wallet
  require (a.provider_stake_usdc_vault.key == a.config.value.provider_stake_usdc_vault)
      ErrorCode.invalid_vault_account
  require (a.usdc_mint.key == a.config.value.usdc_mint) ErrorCode.invalid_usdc_mint
  seeds_at r r.masterpool_id Seeds.pool_authority a.pool_authority

unfoldable pub exit_provider : Runtime → ExitProvider → Ledger → Outcome (ExitProvider × Ledger)
exit_provider r a l = do
  let provider = a.provider_account.value
  require (provider.status == provider_status_code ProviderStatus.active)
      ErrorCode.provider_not_active
  require
      (provider.pending_provider_usdc == 0
        && provider.unsettled_receipt_count == 0
        && provider.unresolved_challenge_count == 0
        && leb_ℤ (pos 0) provider.claw_net_position)
      ErrorCode.provider_exit_blocked
  l' ←
      r.transfer_checked a.provider_stake_usdc_vault.key a.usdc_mint.key
        a.provider_destination_usdc.key a.pool_authority provider.staked_usdc_amount
        a.usdc_mint.value.decimals l
  staked ← checked_sub_u64 provider.staked_usdc_amount provider.staked_usdc_amount
  ok (
    record a {
      provider_account = record a.provider_account {
        value = record provider {
          staked_usdc_amount = staked;
          status = provider_status_code ProviderStatus.exited;
          updated_at = r.now;
        };
      };
    },
    l',
  )
