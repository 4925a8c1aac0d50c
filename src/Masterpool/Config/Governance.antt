-- ===== src/Masterpool/Config/Governance.antt =====
-- Which configurations there can be, and the one mint: laws of the instructions of
-- programs/clawfarm-masterpool/src/instructions/config.rs.
use clawfarm_masterpool.Prelude.{
  ◌+◌, ◌<◌, ◌≡◌, ◌∙◌, inl, inr, ◌↔◌, Bool, true, false, none, some, ok, arith, Result-cases,
}
use clawfarm_masterpool.Runtime.{
  Outcome, Pubkey, Ledger, Runtime, AuthorityType, TokenLaws, balance, supply, at,
}
use clawfarm_masterpool.Masterpool.Error.{ErrorCode}
use clawfarm_masterpool.Masterpool.Constants.{
  genesis_total_supply, u64_mod, claw_decimals, usdc_decimals,
}
use clawfarm_masterpool.Masterpool.Types.{Phase1ConfigParams}
use clawfarm_masterpool.Masterpool.Accounts.{GlobalConfig}
use clawfarm_masterpool.Masterpool.Utils.{fail}
use clawfarm_masterpool.Masterpool.Config.{
  UpdateConfig, update_config, set_pause_flags, InitializeMasterpool, initialize_masterpool,
  MintGenesisSupply, mint_genesis_supply,
}
use clawfarm_masterpool.Masterpool.Utils.Bounds.{IsValid, validate_phase1_params_iff}

-- The parameters in force.
unfoldable pub params_of : GlobalConfig → Phase1ConfigParams
params_of c = record {
  exchange_rate_claw_per_usdc_e6 = c.exchange_rate_claw_per_usdc_e6;
  provider_stake_usdc = c.provider_stake_usdc;
  provider_usdc_share_bps = c.provider_usdc_share_bps;
  treasury_usdc_share_bps = c.treasury_usdc_share_bps;
  user_claw_share_bps = c.user_claw_share_bps;
  provider_claw_share_bps = c.provider_claw_share_bps;
  lock_days = c.lock_days;
  provider_slash_claw_amount = c.provider_slash_claw_amount;
  challenger_reward_bps = c.challenger_reward_bps;
  burn_bps = c.burn_bps;
  challenge_bond_claw_amount = c.challenge_bond_claw_amount;
}

-- What a change of the parameters or of the pauses leaves alone.
pub record KeepsBindings (c c' : GlobalConfig) : Type 0 where
  pub admin_authority : c'.admin_authority ≡ c.admin_authority
  pub attestation_program : c'.attestation_program ≡ c.attestation_program
  pub claw_mint : c'.claw_mint ≡ c.claw_mint
  pub usdc_mint : c'.usdc_mint ≡ c.usdc_mint
  pub reward_vault : c'.reward_vault ≡ c.reward_vault
  pub challenge_bond_vault : c'.challenge_bond_vault ≡ c.challenge_bond_vault
  pub treasury_usdc_vault : c'.treasury_usdc_vault ≡ c.treasury_usdc_vault
  pub provider_stake_usdc_vault : c'.provider_stake_usdc_vault ≡ c.provider_stake_usdc_vault
  pub provider_pending_usdc_vault : c'.provider_pending_usdc_vault ≡ c.provider_pending_usdc_vault
  pub genesis_minted : c'.genesis_minted ≡ c.genesis_minted

-- An update puts exactly the given parameters in force, if they are valid and their slash amount is a
-- `u64`, and keeps the authorities, mints, vaults and the genesis flag; it succeeds for all such.
pub update_config_iff :
    (r : Runtime) (a : UpdateConfig) (p : Phase1ConfigParams)
    → p.provider_slash_claw_amount < u64_mod
    → ((a' : UpdateConfig) × (update_config r a p ≡ ok a')
        × (params_of a'.config.value ≡ p)
        × KeepsBindings a.config.value a'.config.value)
      ↔ IsValid p
unfolding update_config params_of
update_config_iff r a p s = (
  λ (a', h, _, _). (validate_phase1_params_iff p s).0 (ground arith),
  λ v.
      let e = (validate_phase1_params_iff p s).1 v in
      elim (Result-cases (update_config r a p)) [
        | inl (a', h) ↦ (a', h, ground arith, ground arith)
        | inr (f, h) ↦ absurd (ground arith)
      ],
)

-- Setting the pauses changes no parameter and no binding, so a valid configuration stays valid.
pub set_pause_flags-keeps :
    (r : Runtime) (a a' : UpdateConfig) (receipts challenges finalization claims : Bool)
    → set_pause_flags r a receipts challenges finalization claims ≡ ok a'
    → (params_of a'.config.value ≡ params_of a.config.value)
      × KeepsBindings a.config.value a'.config.value
      × (a'.config.value.pause_receipt_recording ≡ receipts)
      × (a'.config.value.pause_challenge_processing ≡ challenges)
      × (a'.config.value.pause_finalization ≡ finalization)
      × (a'.config.value.pause_claims ≡ claims)
unfolding set_pause_flags params_of
set_pause_flags-keeps r a a' receipts challenges finalization claims h = ground arith

-- What a new configuration takes from the accounts and the parameters given.
pub record IsFresh (a : InitializeMasterpool) (p : Phase1ConfigParams) (c : GlobalConfig)
    : Type 0 where
  pub params : params_of c ≡ p
  pub admin_authority : c.admin_authority ≡ a.admin
  pub attestation_program : c.attestation_program ≡ a.attestation_program.key
  pub claw_mint : c.claw_mint ≡ a.claw_mint.key
  pub usdc_mint : c.usdc_mint ≡ a.usdc_mint.key
  pub reward_vault : c.reward_vault ≡ a.reward_vault.key
  pub pending_vault : c.provider_pending_usdc_vault ≡ a.provider_pending_usdc_vault.key
  pub genesis_minted : c.genesis_minted ≡ false
  pub pause_claims : c.pause_claims ≡ false
  pub pause_receipt_recording : c.pause_receipt_recording ≡ false
  pub pause_finalization : c.pause_finalization ≡ false
  pub pause_challenge_processing : c.pause_challenge_processing ≡ false

-- Where the slash amount is a `u64`, the configuration with which the program starts has the parameters
-- given, which are valid, binds the given admin, attestation program, mints, reward vault and pending
-- vault, has not minted, and pauses nothing; the attestation program is executable, and both mints have
-- six decimals.
pub initialize-IsFresh :
    (r : Runtime) (a a' : InitializeMasterpool) (p : Phase1ConfigParams) (c : GlobalConfig)
    → p.provider_slash_claw_amount < u64_mod
    → initialize_masterpool r a p ≡ ok a'
    → a'.config.value ≡ some c
    → IsFresh a p c
      × IsValid p
      × (a.attestation_program.executable ≡ true)
      × (a.claw_mint.value.decimals ≡ claw_decimals)
      × (a.usdc_mint.value.decimals ≡ usdc_decimals)
unfolding initialize_masterpool params_of
initialize-IsFresh r a a' p c s h e = (
  ground arith,
  (validate_phase1_params_iff p s).0 (ground arith),
  ground arith,
  ground arith,
  ground arith,
)

module _ (r : Runtime) (a a' : MintGenesisSupply) (l l' : Ledger) where
  genesis_calls :
      mint_genesis_supply r a l ≡ ok (a', l')
      → (l₁ l₂ : Ledger) × (r.mint_to a.claw_mint.key a.reward_vault.key a.pool_authority
            genesis_total_supply l
          ≡ ok l₁)
        × (r.set_authority a.pool_authority a.claw_mint.key AuthorityType.mint_tokens none l₁
            ≡ ok l₂)
        × (r.set_authority a.pool_authority a.claw_mint.key AuthorityType.freeze_account none l₂
            ≡ ok l')
  unfolding mint_genesis_supply
  genesis_calls h = elim (Result-cases mint) [
    | inl (l₁, e₁) ↦ elim (Result-cases (drop l₁)) [
      | inl (l₂, e₂) ↦ (l₁, l₂, e₁, e₂, ground arith)
      | inr (c, e₂) ↦ absurd (ground arith)
    ]
    | inr (c, e₁) ↦ absurd (ground arith)
  ]
    where
      mint : Outcome Ledger
      mint = r.mint_to a.claw_mint.key a.reward_vault.key a.pool_authority genesis_total_supply l

      drop : Ledger → Outcome Ledger
      drop = r.set_authority a.pool_authority a.claw_mint.key AuthorityType.mint_tokens none

  -- The genesis mint puts exactly the total supply into the reward vault and into the supply of CLAW, and
  -- changes no other balance or supply; it cannot be repeated: on the configuration that it leaves every
  -- other call fails with `GenesisAlreadyMinted`.
  pub mint_genesis-once :
      (laws : TokenLaws r) (r₂ : Runtime) (b : MintGenesisSupply) (l₂ : Ledger)
      → mint_genesis_supply r a l ≡ ok (a', l')
      → b.config.value ≡ a'.config.value
      → ((k : Pubkey)
          → (balance l' k ≡ balance l k + at k a.reward_vault.key genesis_total_supply)
            × (supply l' k ≡ supply l k + at k a.claw_mint.key genesis_total_supply))
        × (mint_genesis_supply r₂ b l₂ ≡ fail ErrorCode.genesis_already_minted)
  unfolding mint_genesis_supply
  mint_genesis-once laws r₂ b l₂ h e =
      let (m₁, m₂, e₁, e₂, e₃) = genesis_calls h in
      (
        λ k. (
          laws.balance-authority _ _ k _ _ m₂ l' e₃
              ∙ laws.balance-authority _ _ k _ _ m₁ m₂ e₂
              ∙ laws.balance-mint _ _ _ _ k l m₁ e₁,
          laws.supply-authority _ _ k _ _ m₂ l' e₃
              ∙ laws.supply-authority _ _ k _ _ m₁ m₂ e₂
              ∙ laws.supply-mint _ _ _ _ k l m₁ e₁,
        ),
        ground arith,
      )
