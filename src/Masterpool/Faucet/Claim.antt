-- ===== src/Masterpool/Faucet/Claim.antt =====
-- `claim_faucet` of programs/clawfarm-masterpool/src/instructions/faucet.rs.
use clawfarm_masterpool.Prelude.{
  ◌&&◌, ◌||◌, some, ok, ◌>>=◌, ◌>>◌, pos, ltb, leb, ◌==◌, if◌then◌else◌,
}
use clawfarm_masterpool.Runtime.{
  Outcome, Pubkey, AccountInfo, Account, Slot, TokenAccount, Mint, Ledger, Runtime, Seeds,
  default_pubkey, signer, seeds_at, loaded,
}
use clawfarm_masterpool.Masterpool.Error.{ErrorCode}
use clawfarm_masterpool.Masterpool.Types.{FaucetClaimArgs}
use clawfarm_masterpool.Masterpool.Accounts.{
  GlobalConfig, FaucetConfig, FaucetGlobalState, FaucetUserState,
}
use clawfarm_masterpool.Masterpool.Utils.{
  require, checked_add_u64, require_token_owner, require_token_mint,
}
use clawfarm_masterpool.Masterpool.Faucet.Daily.{
  current_day_index, reset_global_if_needed, initialize_or_reset_user_if_needed,
}

pub record ClaimFaucet : Type 0 where
  pub config : Account GlobalConfig
  pub faucet_config : Account FaucetConfig
  pub faucet_global_state : Account FaucetGlobalState
  pub faucet_user_state : Slot FaucetUserState
  pub faucet_claw_vault : Account TokenAccount
  pub faucet_usdc_vault : Account TokenAccount
  pub user_claw_token : Account TokenAccount
  pub user_usdc_token : Account TokenAccount
  pub claw_mint : Account Mint
  pub usdc_mint : Account Mint
  pub pool_authority : Pubkey
  pub user : Pubkey
  pub payer : AccountInfo

-- The constraints of the struct, in the order of its fields.
unfoldable pub check_claim_faucet : Runtime → ClaimFaucet → Outcome (Unit {0})
check_claim_faucet r a = do
  seeds_at r r.masterpool_id Seeds.config a.config.key
  seeds_at r r.masterpool_id Seeds.faucet_config a.faucet_config.key
  require (faucet.faucet_claw_vault == a.faucet_claw_vault.key) ErrorCode.invalid_faucet_vault
  require (faucet.faucet_usdc_vault == a.faucet_usdc_vault.key) ErrorCode.invalid_faucet_vault
  seeds_at r r.masterpool_id Seeds.faucet_global a.faucet_global_state.key
  seeds_at r r.masterpool_id (Seeds.faucet_user a.user) a.faucet_user_state.key
  require (a.faucet_claw_vault.key == faucet.faucet_claw_vault) ErrorCode.invalid_faucet_vault
  require (a.faucet_claw_vault.value.mint == config.claw_mint) ErrorCode.invalid_token_mint
  require (a.faucet_claw_vault.value.owner == a.pool_authority) ErrorCode.invalid_faucet_vault
  require (a.faucet_usdc_vault.key == faucet.faucet_usdc_vault) ErrorCode.invalid_faucet_vault
  require (a.faucet_usdc_vault.value.mint == config.usdc_mint) ErrorCode.invalid_token_mint
  require (a.faucet_usdc_vault.value.owner == a.pool_authority) ErrorCode.invalid_faucet_vault
  require (a.claw_mint.key == config.claw_mint) ErrorCode.invalid_claw_mint
  require (a.usdc_mint.key == config.usdc_mint) ErrorCode.invalid_usdc_mint
  seeds_at r r.masterpool_id Seeds.pool_authority a.pool_authority
  signer a.payer
  where
    config : GlobalConfig
    config = a.config.value

    faucet : FaucetConfig
    faucet = a.faucet_config.value

-- The user's counters as `init_if_needed` creates them.
abbrev pub blank_user_state : FaucetUserState
blank_user_state = record {
  owner = default_pubkey;
  current_day_index = pos 0;
  claw_claimed_today = 0;
  usdc_claimed_today = 0;
  created_at = pos 0;
  updated_at = pos 0;
}

-- The two transfers; an amount of zero makes no call.
unfoldable pub pay_faucet_claim : Runtime → ClaimFaucet → FaucetClaimArgs → Ledger → Outcome Ledger
pay_faucet_claim r a args l = do
  l₁ ←
      (if ltb 0 args.claw_amount
        then r.transfer_checked a.faucet_claw_vault.key a.claw_mint.key a.user_claw_token.key
            a.pool_authority args.claw_amount a.claw_mint.value.decimals l
        else ok l)
  (if ltb 0 args.usdc_amount
      then r.transfer_checked a.faucet_usdc_vault.key a.usdc_mint.key a.user_usdc_token.key
          a.pool_authority args.usdc_amount a.usdc_mint.value.decimals l₁
      else ok l₁)

unfoldable pub claim_faucet :
    Runtime → ClaimFaucet → FaucetClaimArgs → Ledger → Outcome (ClaimFaucet × Ledger)
unfolding require_token_owner require_token_mint
claim_faucet r a args l = do
  day_index ← current_day_index r.now
  let faucet = a.faucet_config.value
  require faucet.enabled ErrorCode.faucet_disabled
  require (ltb 0 args.claw_amount || ltb 0 args.usdc_amount) ErrorCode.invalid_faucet_amount
  require
      (leb args.claw_amount faucet.max_claw_per_claim
        && leb args.usdc_amount faucet.max_usdc_per_claim)
      ErrorCode.faucet_claim_limit_exceeded
  let global = reset_global_if_needed a.faucet_global_state.value day_index r.now
  user_state ←
      initialize_or_reset_user_if_needed (loaded a.faucet_user_state.value blank_user_state) a.user
        day_index r.now
  next_user_claw ← checked_add_u64 user_state.claw_claimed_today args.claw_amount
  next_user_usdc ← checked_add_u64 user_state.usdc_claimed_today args.usdc_amount
  require
      (leb next_user_claw faucet.max_claw_per_wallet_per_day
        && leb next_user_usdc faucet.max_usdc_per_wallet_per_day)
      ErrorCode.faucet_wallet_daily_limit_exceeded
  next_global_claw ← checked_add_u64 global.claw_claimed_today args.claw_amount
  next_global_usdc ← checked_add_u64 global.usdc_claimed_today args.usdc_amount
  require
      (leb next_global_claw faucet.max_claw_global_per_day
        && leb next_global_usdc faucet.max_usdc_global_per_day)
      ErrorCode.faucet_global_daily_limit_exceeded
  require_token_owner a.user_claw_token.value a.user
  require_token_mint a.user_claw_token.value a.config.value.claw_mint
  require_token_owner a.user_usdc_token.value a.user
  require_token_mint a.user_usdc_token.value a.config.value.usdc_mint
  require
      (leb args.claw_amount a.faucet_claw_vault.value.amount
        && leb args.usdc_amount a.faucet_usdc_vault.value.amount)
      ErrorCode.faucet_vault_insufficient_balance
  l' ← pay_faucet_claim r a args l
  ok (
    record a {
      faucet_user_state = record a.faucet_user_state {
        value = some (record user_state {
          claw_claimed_today = next_user_claw;
          usdc_claimed_today = next_user_usdc;
          updated_at = r.now;
        });
      };
      faucet_global_state = record a.faucet_global_state {
        value = record global {
          claw_claimed_today = next_global_claw;
          usdc_claimed_today = next_global_usdc;
          updated_at = r.now;
        };
      };
    },
    l',
  )
