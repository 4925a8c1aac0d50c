-- ===== src/Masterpool/Config/Genesis.antt =====
-- The setup in programs/clawfarm-masterpool/src/instructions/config.rs: the configuration and its
-- vaults, and the one mint of the whole supply.
use clawfarm_masterpool.Prelude.{true, false, not, Option, none, some, ok, ◌>>=◌, ◌>>◌, ◌==◌}
use clawfarm_masterpool.Runtime.{
  Outcome, Pubkey, AccountInfo, Account, Slot, TokenAccount, Mint, Ledger, Runtime, Seeds, signer,
  seeds_at, vacant, same_key, AuthorityType, ProgramData,
}
use clawfarm_masterpool.Masterpool.Error.{ErrorCode}
use clawfarm_masterpool.Masterpool.Constants.{genesis_total_supply}
use clawfarm_masterpool.Masterpool.Types.{Phase1ConfigParams}
use clawfarm_masterpool.Masterpool.Accounts.{GlobalConfig}
use clawfarm_masterpool.Masterpool.Utils.{
  require, validate_phase1_params, require_phase1_mint_decimals,
}

pub record InitializeMasterpool : Type 0 where
  pub config : Slot GlobalConfig
  pub reward_vault : Slot TokenAccount
  pub challenge_bond_vault : Slot TokenAccount
  pub treasury_usdc_vault : Slot TokenAccount
  pub provider_stake_usdc_vault : Slot TokenAccount
  pub provider_pending_usdc_vault : Slot TokenAccount
  pub claw_mint : Account Mint
  pub usdc_mint : Account Mint
  pub attestation_program : AccountInfo
  pub programdata_address : Option Pubkey
  pub self_program_data : Account ProgramData
  pub pool_authority : Pubkey
  pub initializer : AccountInfo
  pub admin : Pubkey

-- `init` of a token account: it must be vacant at its derived address, and is then created.
unfoldable pub init_vault :
    Runtime → Slot TokenAccount → Seeds → Pubkey → Pubkey → Ledger → Outcome Ledger
init_vault r vault seeds mint authority l = do
  seeds_at r r.masterpool_id seeds vault.key
  vacant vault
  r.init_token_account vault.key mint authority l

-- The constraints of the struct, in the order of its fields, with the vaults that it creates.
unfoldable pub check_initialize_masterpool :
    Runtime → InitializeMasterpool → Ledger → Outcome Ledger
check_initialize_masterpool r a l = do
  seeds_at r r.masterpool_id Seeds.config a.config.key
  vacant a.config
  l₁ ← init_vault r a.reward_vault Seeds.reward_vault a.claw_mint.key a.pool_authority l
  l₂ ←
      init_vault r a.challenge_bond_vault Seeds.challenge_bond_vault a.claw_mint.key
        a.pool_authority l₁
  l₃ ←
      init_vault r a.treasury_usdc_vault Seeds.treasury_usdc_vault a.usdc_mint.key a.pool_authority
        l₂
  l₄ ←
      init_vault r a.provider_stake_usdc_vault Seeds.provider_stake_usdc_vault a.usdc_mint.key
        a.pool_authority l₃
  l₅ ←
      init_vault r a.provider_pending_usdc_vault Seeds.provider_pending_usdc_vault a.usdc_mint.key
        a.pool_authority l₄
  require (same_key a.programdata_address a.self_program_data.key) ErrorCode.invalid_program_data
  require (same_key a.self_program_data.value.upgrade_authority_address a.initializer.key)
      ErrorCode.unauthorized_initializer
  seeds_at r r.masterpool_id Seeds.pool_authority a.pool_authority
  signer a.initializer
  ok l₅

unfoldable pub initialize_masterpool :
    Runtime → InitializeMasterpool → Phase1ConfigParams → Outcome InitializeMasterpool
unfolding require_phase1_mint_decimals
initialize_masterpool r a params = do
  validate_phase1_params params
  require a.attestation_program.executable ErrorCode.invalid_attestation_program
  require_phase1_mint_decimals a.claw_mint.value a.usdc_mint.value
  ok (record a {
    config = record a.config {
      value = some (record {
        version = 1;
        admin_authority = a.admin;
        attestation_program = a.attestation_program.key;
        claw_mint = a.claw_mint.key;
        usdc_mint = a.usdc_mint.key;
        reward_vault = a.reward_vault.key;
        challenge_bond_vault = a.challenge_bond_vault.key;
        treasury_usdc_vault = a.treasury_usdc_vault.key;
        provider_stake_usdc_vault = a.provider_stake_usdc_vault.key;
        provider_pending_usdc_vault = a.provider_pending_usdc_vault.key;
        exchange_rate_claw_per_usdc_e6 = params.exchange_rate_claw_per_usdc_e6;
        provider_stake_usdc = params.provider_stake_usdc;
        provider_usdc_share_bps = params.provider_usdc_share_bps;
        treasury_usdc_share_bps = params.treasury_usdc_share_bps;
        user_claw_share_bps = params.user_claw_share_bps;
        provider_claw_share_bps = params.provider_claw_share_bps;
        lock_days = params.lock_days;
        provider_slash_claw_amount = params.provider_slash_claw_amount;
        challenger_reward_bps = params.challenger_reward_bps;
        burn_bps = params.burn_bps;
        challenge_bond_claw_amount = params.challenge_bond_claw_amount;
        genesis_minted = false;
        pause_receipt_recording = false;
        pause_challenge_processing = false;
        pause_finalization = false;
        pause_claims = false;
        created_at = r.now;
        updated_at = r.now;
      });
    };
  })

pub record MintGenesisSupply : Type 0 where
  pub config : Account GlobalConfig
  pub admin_authority : AccountInfo
  pub reward_vault : Account TokenAccount
  pub claw_mint : Account Mint
  pub pool_authority : Pubkey

-- The constraints of the struct, in the order of its fields.
unfoldable pub check_mint_genesis_supply : Runtime → MintGenesisSupply → Outcome (Unit {0})
check_mint_genesis_supply r a = do
  seeds_at r r.masterpool_id Seeds.config a.config.key
  require (a.config.value.admin_authority == a.admin_authority.key) ErrorCode.unauthorized_admin
  require (a.config.value.claw_mint == a.claw_mint.key) ErrorCode.invalid_claw_mint
  signer a.admin_authority
  require (a.reward_vault.key == a.config.value.reward_vault) ErrorCode.invalid_vault_account
  require (a.claw_mint.key == a.config.value.claw_mint) ErrorCode.invalid_claw_mint
  seeds_at r r.masterpool_id Seeds.pool_authority a.pool_authority

unfoldable pub mint_genesis_supply :
    Runtime → MintGenesisSupply → Ledger → Outcome (MintGenesisSupply × Ledger)
mint_genesis_supply r a l = do
  require (not a.config.value.genesis_minted) ErrorCode.genesis_already_minted
  require (same_key a.claw_mint.value.mint_authority a.pool_authority)
      ErrorCode.invalid_claw_mint_authority
  require (same_key a.claw_mint.value.freeze_authority a.pool_authority)
      ErrorCode.invalid_claw_freeze_authority
  l₁ ← r.mint_to a.claw_mint.key a.reward_vault.key a.pool_authority genesis_total_supply l
  l₂ ← r.set_authority a.pool_authority a.claw_mint.key AuthorityType.mint_tokens none l₁
  l₃ ← r.set_authority a.pool_authority a.claw_mint.key AuthorityType.freeze_account none l₂
  ok (
    record a {
      config = record a.config {
        value = record a.config.value { genesis_minted = true; updated_at = r.now };
      };
    },
    l₃,
  )
