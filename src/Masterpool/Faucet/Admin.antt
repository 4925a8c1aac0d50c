-- ===== src/Masterpool/Faucet/Admin.antt =====
-- The admin instructions of programs/clawfarm-masterpool/src/instructions/faucet.rs.
use clawfarm_masterpool.Prelude.{ℕ, Bool, false, some, ok, ◌>>=◌, ◌>>◌, ltb, leb, ◌==◌}
use clawfarm_masterpool.Runtime.{
  Outcome, Pubkey, AccountInfo, Account, Slot, TokenAccount, Mint, Ledger, Runtime, Seeds, signer,
  seeds_at, vacant,
}
use clawfarm_masterpool.Masterpool.Error.{ErrorCode}
use clawfarm_masterpool.Masterpool.Constants.{
  default_faucet_max_claw_per_claim, default_faucet_max_usdc_per_claim,
  default_faucet_max_claw_per_wallet_per_day, default_faucet_max_usdc_per_wallet_per_day,
  default_faucet_max_claw_global_per_day, default_faucet_max_usdc_global_per_day,
}
use clawfarm_masterpool.Masterpool.Types.{FaucetLimits}
use clawfarm_masterpool.Masterpool.Accounts.{GlobalConfig, FaucetConfig, FaucetGlobalState}
use clawfarm_masterpool.Masterpool.Utils.{require, validate_faucet_limits}
use clawfarm_masterpool.Masterpool.Faucet.Daily.{current_day_index, apply_faucet_limits}
use clawfarm_masterpool.Masterpool.Config.{init_vault}

pub record InitializeFaucet : Type 0 where
  pub config : Account GlobalConfig
  pub faucet_config : Slot FaucetConfig
  pub faucet_global_state : Slot FaucetGlobalState
  pub faucet_claw_vault : Slot TokenAccount
  pub faucet_usdc_vault : Slot TokenAccount
  pub claw_mint : Account Mint
  pub usdc_mint : Account Mint
  pub pool_authority : Pubkey
  pub admin_authority : AccountInfo
  pub payer : AccountInfo

-- The constraints of the struct, in the order of its fields, with the vaults that it creates.
unfoldable pub check_initialize_faucet : Runtime → InitializeFaucet → Ledger → Outcome Ledger
check_initialize_faucet r a l = do
  seeds_at r r.masterpool_id Seeds.config a.config.key
  require (config.admin_authority == a.admin_authority.key) ErrorCode.unauthorized_admin
  require (config.claw_mint == a.claw_mint.key) ErrorCode.invalid_claw_mint
  require (config.usdc_mint == a.usdc_mint.key) ErrorCode.invalid_usdc_mint
  seeds_at r r.masterpool_id Seeds.faucet_config a.faucet_config.key
  vacant a.faucet_config
  seeds_at r r.masterpool_id Seeds.faucet_global a.faucet_global_state.key
  vacant a.faucet_global_state
  l₁ ← init_vault r a.faucet_claw_vault Seeds.faucet_claw_vault a.claw_mint.key a.pool_authority l
  l₂ ← init_vault r a.faucet_usdc_vault Seeds.faucet_usdc_vault a.usdc_mint.key a.pool_authority l₁
  require (a.claw_mint.key == config.claw_mint) ErrorCode.invalid_claw_mint
  require (a.usdc_mint.key == config.usdc_mint) ErrorCode.invalid_usdc_mint
  seeds_at r r.masterpool_id Seeds.pool_authority a.pool_authority
  signer a.admin_authority
  signer a.payer
  ok l₂
  where
    config : GlobalConfig
    config = a.config.value

abbrev pub default_faucet_limits : FaucetLimits
default_faucet_limits = record {
  max_claw_per_claim = default_faucet_max_claw_per_claim;
  max_usdc_per_claim = default_faucet_max_usdc_per_claim;
  max_claw_per_wallet_per_day = default_faucet_max_claw_per_wallet_per_day;
  max_usdc_per_wallet_per_day = default_faucet_max_usdc_per_wallet_per_day;
  max_claw_global_per_day = default_faucet_max_claw_global_per_day;
  max_usdc_global_per_day = default_faucet_max_usdc_global_per_day;
}

unfoldable pub initialize_faucet : Runtime → InitializeFaucet → Outcome InitializeFaucet
unfolding validate_faucet_limits
initialize_faucet r a = do
  validate_faucet_limits default_faucet_limits
  day_index ← current_day_index r.now
  ok (record a {
    faucet_config = record a.faucet_config {
      value = some (record {
        admin_authority = a.admin_authority.key;
        enabled = false;
        faucet_claw_vault = a.faucet_claw_vault.key;
        faucet_usdc_vault = a.faucet_usdc_vault.key;
        max_claw_per_claim = default_faucet_max_claw_per_claim;
        max_usdc_per_claim = default_faucet_max_usdc_per_claim;
        max_claw_per_wallet_per_day = default_faucet_max_claw_per_wallet_per_day;
        max_usdc_per_wallet_per_day = default_faucet_max_usdc_per_wallet_per_day;
        max_claw_global_per_day = default_faucet_max_claw_global_per_day;
        max_usdc_global_per_day = default_faucet_max_usdc_global_per_day;
        created_at = r.now;
        updated_at = r.now;
      });
    };
    faucet_global_state = record a.faucet_global_state {
      value = some (record {
        current_day_index = day_index;
        claw_claimed_today = 0;
        usdc_claimed_today = 0;
        updated_at = r.now;
      });
    };
  })

-- The accounts of `SetFaucetEnabled` and of `UpdateFaucetLimits`, which are the same.
pub record SetFaucetEnabled : Type 0 where
  pub config : Account GlobalConfig
  pub faucet_config : Account FaucetConfig
  pub admin_authority : AccountInfo

-- The constraints of either struct, in the order of its fields.
unfoldable pub check_set_faucet_enabled : Runtime → SetFaucetEnabled → Outcome (Unit {0})
check_set_faucet_enabled r a = do
  seeds_at r r.masterpool_id Seeds.config a.config.key
  require (a.config.value.admin_authority == a.admin_authority.key) ErrorCode.unauthorized_admin
  seeds_at r r.masterpool_id Seeds.faucet_config a.faucet_config.key
  require (a.faucet_config.value.admin_authority == a.admin_authority.key)
      ErrorCode.unauthorized_admin
  signer a.admin_authority

unfoldable pub set_faucet_enabled : Runtime → SetFaucetEnabled → Bool → Outcome SetFaucetEnabled
set_faucet_enabled r a enabled = ok (record a {
  faucet_config = record a.faucet_config {
    value = record a.faucet_config.value { enabled = enabled; updated_at = r.now };
  };
})

unfoldable pub update_faucet_limits :
    Runtime → SetFaucetEnabled → FaucetLimits → Outcome SetFaucetEnabled
unfolding validate_faucet_limits apply_faucet_limits
update_faucet_limits r a limits = do
  validate_faucet_limits limits
  let faucet = apply_faucet_limits a.faucet_config.value limits
  ok (record a {
    faucet_config = record a.faucet_config { value = record faucet { updated_at = r.now } };
  })

pub record FundFaucetClaw : Type 0 where
  pub config : Account GlobalConfig
  pub faucet_config : Account FaucetConfig
  pub reward_vault : Account TokenAccount
  pub faucet_claw_vault : Account TokenAccount
  pub claw_mint : Account Mint
  pub pool_authority : Pubkey
  pub admin_authority : AccountInfo

-- The constraints of the struct, in the order of its fields.
unfoldable pub check_fund_faucet_claw : Runtime → FundFaucetClaw → Outcome (Unit {0})
check_fund_faucet_claw r a = do
  seeds_at r r.masterpool_id Seeds.config a.config.key
  require (config.admin_authority == a.admin_authority.key) ErrorCode.unauthorized_admin
  require (config.claw_mint == a.claw_mint.key) ErrorCode.invalid_claw_mint
  seeds_at r r.masterpool_id Seeds.faucet_config a.faucet_config.key
  require (faucet.admin_authority == a.admin_authority.key) ErrorCode.unauthorized_admin
  require (faucet.faucet_claw_vault == a.faucet_claw_vault.key) ErrorCode.invalid_faucet_vault
  require (a.reward_vault.key == config.reward_vault) ErrorCode.invalid_vault_account
  require (a.reward_vault.value.mint == config.claw_mint) ErrorCode.invalid_token_mint
  require (a.reward_vault.value.owner == a.pool_authority) ErrorCode.invalid_vault_account
  require (a.faucet_claw_vault.key == faucet.faucet_claw_vault) ErrorCode.invalid_faucet_vault
  require (a.faucet_claw_vault.value.mint == config.claw_mint) ErrorCode.invalid_token_mint
  require (a.faucet_claw_vault.value.owner == a.pool_authority) ErrorCode.invalid_faucet_vault
  require (a.claw_mint.key == config.claw_mint) ErrorCode.invalid_claw_mint
  seeds_at r r.masterpool_id Seeds.pool_authority a.pool_authority
  signer a.admin_authority
  where
    config : GlobalConfig
    config = a.config.value

    faucet : FaucetConfig
    faucet = a.faucet_config.value

unfoldable pub fund_faucet_claw :
    Runtime → FundFaucetClaw → ℕ → Ledger → Outcome (FundFaucetClaw × Ledger)
fund_faucet_claw r a amount l = do
  require (ltb 0 amount) ErrorCode.invalid_faucet_amount
  require (leb amount a.reward_vault.value.amount) ErrorCode.faucet_vault_insufficient_balance
  l' ←
      r.transfer_checked a.reward_vault.key a.claw_mint.key a.faucet_claw_vault.key a.pool_authority
        amount a.claw_mint.value.decimals l
  ok (
    record a {
      faucet_config = record a.faucet_config {
        value = record a.faucet_config.value { updated_at = r.now };
      };
    },
    l',
  )
