-- ===== src/Examples/Governors.antt =====
-- The configuration on the chain: created, changed, and the supply minted.
use clawfarm_masterpool.Prelude.{ℕ, ◌+◌, ◌≤◌, ◌≡◌, refl, ◌↔◌, true, false, none, some, ok, arith}
use clawfarm_masterpool.Runtime.{Pubkey, Slot, TokenAccount, Ledger, balance, supply, at}
use clawfarm_masterpool.Masterpool.Error.{ErrorCode}
use clawfarm_masterpool.Masterpool.Constants.{genesis_total_supply, claw_decimals, usdc_decimals}
use clawfarm_masterpool.Masterpool.Utils.{
  fail, calculate_bps_amount, calculate_claw_amount, checked_sub_u64,
  validate_supported_receipt_charge, validate_phase1_params, validate_phase1_param_bounds,
  require_phase1_mint_decimals, checked_add_u32,
}
use clawfarm_masterpool.Masterpool.Utils.Bounds.{IsValid, validate_phase1_params-no_overflow}
use clawfarm_masterpool.Masterpool.Config.{
  UpdateConfig, update_config, InitializeMasterpool, initialize_masterpool, MintGenesisSupply,
  mint_genesis_supply,
}
use clawfarm_masterpool.Masterpool.Config.Governance.{
  params_of, KeepsBindings, IsFresh, update_config_iff, initialize-IsFresh, mint_genesis-once,
}
use clawfarm_masterpool.Examples.Chain.{
  derived, chain_at, left, minted, put, put_supply, chain-TokenLaws,
}
use clawfarm_masterpool.Examples.Accounts.{ledger, config, params, signing, token, mint_of}

accepted : validate_phase1_params params ≡ ok tt
unfolding validate_phase1_params validate_phase1_param_bounds checked_add_u32 calculate_bps_amount
    calculate_claw_amount checked_sub_u64 validate_supported_receipt_charge
accepted = refl

validate_phase1_params-no_overflow_example :
    ((t : ℕ) × (calculate_bps_amount 7_001 300 ≡ ok t) × (t ≤ 7_001))
    × ((c : ℕ) × (calculate_claw_amount 7_001 1_000_000 ≡ ok c)
        × ((u : ℕ) × (calculate_bps_amount c 300 ≡ ok u) × (u ≤ c)))
    × ((g : ℕ) × (calculate_bps_amount 30_000_000 700 ≡ ok g) × (g ≤ 30_000_000))
unfolding validate_supported_receipt_charge
validate_phase1_params-no_overflow_example =
    validate_phase1_params-no_overflow params 7_001 accepted refl (ground arith)

abbrev updating : UpdateConfig
updating = record { config = config; admin_authority = signing 10 }

update_config_iff_example :
    ((a' : UpdateConfig) × (update_config (chain_at 900) updating params ≡ ok a')
      × (params_of a'.config.value ≡ params)
      × KeepsBindings config.value a'.config.value)
    ↔ IsValid params
update_config_iff_example = update_config_iff (chain_at 900) updating params (ground arith)

abbrev empty_vault : Pubkey → Slot TokenAccount
empty_vault k = record { key = k; value = none }

abbrev initializing : InitializeMasterpool
initializing = record {
  config = record { key = derived; value = none };
  reward_vault = empty_vault 31;
  challenge_bond_vault = empty_vault 32;
  treasury_usdc_vault = empty_vault 33;
  provider_stake_usdc_vault = empty_vault 34;
  provider_pending_usdc_vault = empty_vault 35;
  claw_mint = mint_of 21;
  usdc_mint = mint_of 22;
  attestation_program = record { key = 200; owner = 0; is_signer = false; executable = true };
  programdata_address = some 300;
  self_program_data = record { key = 300; value = record { upgrade_authority_address = some 9 } };
  pool_authority = derived;
  initializer = signing 9;
  admin = 10;
}

abbrev initialized : InitializeMasterpool
initialized = left (initialize_masterpool (chain_at 0) initializing params) initializing

initialize_runs : initialize_masterpool (chain_at 0) initializing params ≡ ok initialized
unfolding initialize_masterpool require_phase1_mint_decimals validate_phase1_params
    validate_phase1_param_bounds checked_add_u32 calculate_bps_amount calculate_claw_amount
    checked_sub_u64 validate_supported_receipt_charge
initialize_runs = refl

initialize_leaves : initialized.config.value ≡ some config.value
unfolding initialize_masterpool require_phase1_mint_decimals validate_phase1_params
    validate_phase1_param_bounds checked_add_u32 calculate_bps_amount calculate_claw_amount
    checked_sub_u64 validate_supported_receipt_charge
initialize_leaves = refl

initialize-IsFresh_example :
    IsFresh initializing params config.value
    × IsValid params
    × (initializing.attestation_program.executable ≡ true)
    × ((mint_of 21).value.decimals ≡ claw_decimals)
    × ((mint_of 22).value.decimals ≡ usdc_decimals)
initialize-IsFresh_example =
    initialize-IsFresh (chain_at 0) initializing initialized params config.value (ground arith)
      initialize_runs initialize_leaves

abbrev minting : MintGenesisSupply
minting = record {
  config = config;
  admin_authority = signing 10;
  reward_vault = token 31 21 derived;
  claw_mint = mint_of 21;
  pool_authority = derived;
}

abbrev genesis : MintGenesisSupply × Ledger
genesis = left (mint_genesis_supply (chain_at 100) minting ledger) (minting, ledger)

genesis_runs : mint_genesis_supply (chain_at 100) minting ledger ≡ ok genesis
unfolding mint_genesis_supply minted balance supply put put_supply
genesis_runs = refl

mint_genesis-once_example :
    ((k : Pubkey)
      → (balance genesis.1 k ≡ balance ledger k + at k 31 genesis_total_supply)
        × (supply genesis.1 k ≡ supply ledger k + at k 21 genesis_total_supply))
    × (mint_genesis_supply (chain_at 200) genesis.0 genesis.1
        ≡ fail ErrorCode.genesis_already_minted)
mint_genesis-once_example =
    mint_genesis-once (chain_at 100) minting genesis.0 ledger genesis.1 (chain-TokenLaws 100)
      (chain_at 200) genesis.0 genesis.1 genesis_runs refl
