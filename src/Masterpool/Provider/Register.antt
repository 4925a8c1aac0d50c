-- ===== src/Masterpool/Provider/Register.antt =====
-- `register_provider` of programs/clawfarm-masterpool/src/instructions/provider.rs.
use clawfarm_masterpool.Prelude.{some, ok, ◌>>=◌, ◌>>◌, pos, ◌==◌}
use clawfarm_masterpool.Runtime.{
  Outcome, AccountInfo, Account, Slot, TokenAccount, Mint, Ledger, Runtime, Seeds, signer, seeds_at,
  vacant, loaded,
}
use clawfarm_masterpool.Masterpool.Error.{ErrorCode}
use clawfarm_masterpool.Masterpool.Types.{ProviderStatus, RewardAccountKind, provider_status_code}
use clawfarm_masterpool.Masterpool.Accounts.{GlobalConfig, ProviderAccount, RewardAccount}
use clawfarm_masterpool.Masterpool.Utils.{
  require, require_token_owner, require_token_mint, initialize_reward_account,
}
use clawfarm_masterpool.Masterpool.Receipt.{blank_reward_account}

pub record RegisterProvider : Type 0 where
  pub config : Account GlobalConfig
  pub provider_account : Slot ProviderAccount
  pub provider_reward_account : Slot RewardAccount
  pub provider_wallet : AccountInfo
  pub provider_stake_usdc_vault : Account TokenAccount
  pub provider_usdc_token : Account TokenAccount
  pub usdc_mint : Account Mint

-- The constraints of the struct, in the order of its fields.
unfoldable pub check_register_provider : Runtime → RegisterProvider → Outcome (Unit {0})
check_register_provider r a = do
  seeds_at r r.masterpool_id Seeds.config a.config.key
  seeds_at r r.masterpool_id (Seeds.provider a.provider_wallet.key) a.provider_account.key
  vacant a.provider_account
  seeds_at r r.masterpool_id (Seeds.provider_reward a.provider_wallet.key)
      a.provider_reward_account.key
  vacant a.provider_reward_account
  signer a.provider_wallet
  require (a.provider_stake_usdc_vault.key == a.config.value.provider_stake_usdc_vault)
      ErrorCode.invalid_vault_account
  require (a.usdc_mint.key == a.config.value.usdc_mint) ErrorCode.invalid_usdc_mint

unfoldable pub register_provider :
    Runtime → RegisterProvider → Ledger → Outcome (RegisterProvider × Ledger)
unfolding require_token_owner require_token_mint
register_provider r a l = do
  let config = a.config.value
  let provider_wallet = a.provider_wallet.key
  require_token_owner a.provider_usdc_token.value provider_wallet
  require_token_mint a.provider_usdc_token.value config.usdc_mint
  l' ←
      r.transfer_checked a.provider_usdc_token.key a.usdc_mint.key a.provider_stake_usdc_vault.key
        provider_wallet config.provider_stake_usdc a.usdc_mint.value.decimals l
  reward_account ←
      initialize_reward_account (loaded a.provider_reward_account.value blank_reward_account)
        provider_wallet RewardAccountKind.provider r.now
  ok (
    record a {
      provider_account = record a.provider_account {
        value = some (record {
          provider_wallet = provider_wallet;
          staked_usdc_amount = config.provider_stake_usdc;
          pending_provider_usdc = 0;
          claw_net_position = pos 0;
          unsettled_receipt_count = 0;
          unresolved_challenge_count = 0;
          status = provider_status_code ProviderStatus.active;
          created_at = r.now;
          updated_at = r.now;
        });
      };
      provider_reward_account = record a.provider_reward_account { value = some reward_account };
    },
    l',
  )
