-- ===== src/Masterpool/Reward/Claim.antt =====
-- `claim_released_claw` of programs/clawfarm-masterpool/src/instructions/reward.rs.
use clawfarm_masterpool.Prelude.{not, ok, ◌>>=◌, ◌>>◌, ltb, ◌==◌}
use clawfarm_masterpool.Runtime.{
  Outcome, Pubkey, AccountInfo, Account, TokenAccount, Mint, Ledger, Runtime, Seeds, signer,
  seeds_at,
}
use clawfarm_masterpool.Masterpool.Error.{ErrorCode}
use clawfarm_masterpool.Masterpool.Accounts.{GlobalConfig, RewardAccount}
use clawfarm_masterpool.Masterpool.Utils.{
  require, checked_add_u64, checked_sub_u64, require_token_owner, require_token_mint,
}

pub record ClaimReleasedClaw : Type 0 where
  pub config : Account GlobalConfig
  pub reward_account : Account RewardAccount
  pub claimant : AccountInfo
  pub reward_vault : Account TokenAccount
  pub claimant_claw_token : Account TokenAccount
  pub claw_mint : Account Mint
  pub pool_authority : Pubkey

-- The constraints of the struct, in the order of its fields.
unfoldable pub check_claim_released_claw : Runtime → ClaimReleasedClaw → Outcome (Unit {0})
check_claim_released_claw r a = do
  seeds_at r r.masterpool_id Seeds.config a.config.key
  signer a.claimant
  require (a.reward_vault.key == a.config.value.reward_vault) ErrorCode.invalid_vault_account
  require (a.claw_mint.key == a.config.value.claw_mint) ErrorCode.invalid_claw_mint
  seeds_at r r.masterpool_id Seeds.pool_authority a.pool_authority

unfoldable pub claim_released_claw :
    Runtime → ClaimReleasedClaw → Ledger → Outcome (ClaimReleasedClaw × Ledger)
unfolding require_token_owner require_token_mint
claim_released_claw r a l = do
  let config = a.config.value
  require (not config.pause_claims) ErrorCode.claims_paused
  let account = a.reward_account.value
  require (account.owner == a.claimant.key) ErrorCode.invalid_reward_account_owner
  claimable ← checked_sub_u64 account.released_claw_total account.claimed_claw_total
  require (ltb 0 claimable) ErrorCode.no_claimable_rewards
  require_token_owner a.claimant_claw_token.value a.claimant.key
  require_token_mint a.claimant_claw_token.value config.claw_mint
  l' ←
      r.transfer_checked a.reward_vault.key a.claw_mint.key a.claimant_claw_token.key
        a.pool_authority claimable a.claw_mint.value.decimals l
  claimed ← checked_add_u64 account.claimed_claw_total claimable
  ok (
    record a {
      reward_account = record a.reward_account {
        value = record account { claimed_claw_total = claimed; updated_at = r.now };
      };
    },
    l',
  )
