-- ===== src/Masterpool/Challenge/Resolve.antt =====
-- `resolve_challenge_economics` of programs/clawfarm-masterpool/src/instructions/challenge.rs.
use clawfarm_masterpool.Prelude.{ℕ, not, ◌&&◌, ◌||◌, ok, ◌>>=◌, ◌>>◌, pos, ltb, ◌==◌, if◌then◌else◌}
use clawfarm_masterpool.Runtime.{
  Outcome, Pubkey, AccountInfo, Account, Slot, TokenAccount, Ledger, Runtime, Seeds, signer,
  seeds_at,
}
use clawfarm_masterpool.Masterpool.Error.{ErrorCode}
use clawfarm_masterpool.Masterpool.Constants.{
  attestation_resolution_accepted, attestation_resolution_rejected,
  attestation_resolution_receipt_invalidated, attestation_resolution_signer_revoked, claw_decimals,
  usdc_decimals,
}
use clawfarm_masterpool.Masterpool.Types.{
  ReceiptSettlementStatus, ChallengeBondStatus, settlement_status_code, bond_status_code,
}
use clawfarm_masterpool.Masterpool.Accounts.{
  GlobalConfig, ProviderAccount, RewardAccount, ReceiptSettlement, ChallengeBondRecord,
}
use clawfarm_masterpool.Masterpool.Utils.{
  require, fail, checked_sub_u64, checked_sub_i128, require_attestation_caller,
  require_token_owner_info, require_token_mint_info,
}

pub record ResolveChallengeEconomics : Type 0 where
  pub config : Account GlobalConfig
  pub attestation_config : AccountInfo
  pub attestation_receipt : Pubkey
  pub attestation_challenge : Pubkey
  pub receipt_settlement : Account ReceiptSettlement
  pub challenge_bond_record : Account ChallengeBondRecord
  pub provider_account : Account ProviderAccount
  pub provider_reward_account : Account RewardAccount
  pub user_reward_account : Account RewardAccount
  pub challenge_bond_vault : Account TokenAccount
  pub reward_vault : Pubkey
  pub provider_pending_usdc_vault : Pubkey
  pub challenger_claw_token : Slot TokenAccount
  pub payer_usdc_token : Slot TokenAccount
  pub claw_mint : Pubkey
  pub usdc_mint : Pubkey
  pub pool_authority : Pubkey

-- The constraints of the struct, in the order of its fields.
unfoldable pub check_resolve_challenge_economics :
    Runtime → ResolveChallengeEconomics → Outcome (Unit {0})
check_resolve_challenge_economics r a = do
  seeds_at r r.masterpool_id Seeds.config a.config.key
  signer a.attestation_config
  seeds_at r config.attestation_program Seeds.config a.attestation_config.key
  seeds_at r r.masterpool_id (Seeds.receipt_settlement a.attestation_receipt)
      a.receipt_settlement.key
  seeds_at r r.masterpool_id (Seeds.challenge_bond_record a.attestation_challenge)
      a.challenge_bond_record.key
  seeds_at r r.masterpool_id (Seeds.provider settlement.provider_wallet) a.provider_account.key
  require (a.provider_account.value.provider_wallet == settlement.provider_wallet)
      ErrorCode.invalid_provider_account
  seeds_at r r.masterpool_id (Seeds.provider_reward settlement.provider_wallet)
      a.provider_reward_account.key
  seeds_at r r.masterpool_id (Seeds.user_reward settlement.payer_user) a.user_reward_account.key
  require (a.challenge_bond_vault.key == config.challenge_bond_vault)
      ErrorCode.invalid_vault_account
  require (a.reward_vault == config.reward_vault) ErrorCode.invalid_vault_account
  require (a.provider_pending_usdc_vault == config.provider_pending_usdc_vault)
      ErrorCode.invalid_vault_account
  require (a.claw_mint == config.claw_mint) ErrorCode.invalid_claw_mint
  require (a.usdc_mint == config.usdc_mint) ErrorCode.invalid_usdc_mint
  seeds_at r r.masterpool_id Seeds.pool_authority a.pool_authority
  where
    config : GlobalConfig
    config = a.config.value

    settlement : ReceiptSettlement
    settlement = a.receipt_settlement.value

-- The resolution code `REJECTED`: the bond is burned.
unfoldable pub burn_bond :
    Runtime → ResolveChallengeEconomics → Ledger → Outcome (ResolveChallengeEconomics × Ledger)
burn_bond r a l = do
  let bond = a.challenge_bond_record.value
  l' ← r.burn a.claw_mint a.challenge_bond_vault.key a.pool_authority bond.bond_amount l
  ok (
    record a {
      challenge_bond_record = record a.challenge_bond_record {
        value = record bond { status = bond_status_code ChallengeBondStatus.burned };
      };
    },
    l',
  )

-- The payments of an accepted challenge: the bond and the reward to the challenger, the burn, and the
-- refund to the payer. A reward or a burn of zero makes no call.
unfoldable pub pay_out_challenge : Runtime → ResolveChallengeEconomics → Ledger → Outcome Ledger
pay_out_challenge r a l = do
  let bond = a.challenge_bond_record.value
  l₁ ←
      r.transfer_checked a.challenge_bond_vault.key a.claw_mint a.challenger_claw_token.key
        a.pool_authority bond.bond_amount claw_decimals l
  l₂ ←
      (if ltb 0 bond.challenger_reward_amount
        then r.transfer_checked a.reward_vault a.claw_mint a.challenger_claw_token.key
            a.pool_authority bond.challenger_reward_amount claw_decimals l₁
        else ok l₁)
  l₃ ←
      (if ltb 0 bond.burn_amount
        then r.burn a.claw_mint a.reward_vault a.pool_authority bond.burn_amount l₂
        else ok l₂)
  r.transfer_checked a.provider_pending_usdc_vault a.usdc_mint a.payer_usdc_token.key
      a.pool_authority a.receipt_settlement.value.usdc_to_provider usdc_decimals l₃

-- The resolution codes that uphold the challenge: the receipt is reverted.
unfoldable pub revert_receipt :
    Runtime → ResolveChallengeEconomics → Ledger → Outcome (ResolveChallengeEconomics × Ledger)
unfolding require_token_owner_info require_token_mint_info pay_out_challenge
revert_receipt r a l = do
  let config = a.config.value
  let settlement = a.receipt_settlement.value
  let bond = a.challenge_bond_record.value
  let provider = a.provider_account.value
  require_token_owner_info a.payer_usdc_token settlement.payer_user
  require_token_mint_info a.payer_usdc_token config.usdc_mint
  require_token_owner_info a.challenger_claw_token bond.challenger
  require_token_mint_info a.challenger_claw_token config.claw_mint
  user_pending ←
      checked_sub_u64 a.user_reward_account.value.pending_claw_total settlement.claw_to_user
  provider_pending ←
      checked_sub_u64 a.provider_reward_account.value.pending_claw_total
        settlement.claw_to_provider_locked
  l' ← pay_out_challenge r a l
  pending_usdc ← checked_sub_u64 provider.pending_provider_usdc settlement.usdc_to_provider
  receipt_count ← checked_sub_u64 provider.unsettled_receipt_count 1
  net_position ← checked_sub_i128 provider.claw_net_position (pos settlement.claw_to_provider_total)
  net_position' ← checked_sub_i128 net_position (pos bond.slash_claw_amount_snapshot)
  ok (
    record a {
      user_reward_account = record a.user_reward_account {
        value = record a.user_reward_account.value { pending_claw_total = user_pending };
      };
      provider_reward_account = record a.provider_reward_account {
        value = record a.provider_reward_account.value { pending_claw_total = provider_pending };
      };
      provider_account = record a.provider_account {
        value = record provider {
          pending_provider_usdc = pending_usdc;
          unsettled_receipt_count = receipt_count;
          claw_net_position = net_position';
        };
      };
      receipt_settlement = record a.receipt_settlement {
        value = record settlement {
          status = settlement_status_code ReceiptSettlementStatus.challenged_reverted;
        };
      };
      challenge_bond_record = record a.challenge_bond_record {
        value = record bond { status = bond_status_code ChallengeBondStatus.returned };
      };
    },
    l',
  )

-- The `match` on the resolution code.
unfoldable pub apply_resolution :
    Runtime → ResolveChallengeEconomics → ℕ → Ledger → Outcome (ResolveChallengeEconomics × Ledger)
apply_resolution r a resolution_code l =
    if resolution_code == attestation_resolution_rejected
    then burn_bond r a l
    else if resolution_code == attestation_resolution_accepted
        || resolution_code == attestation_resolution_receipt_invalidated
        || resolution_code == attestation_resolution_signer_revoked
    then revert_receipt r a l
    else fail ErrorCode.invalid_challenge_resolution

-- What follows the `match`, on either outcome.
unfoldable pub close_resolution :
    Runtime → ResolveChallengeEconomics → Outcome ResolveChallengeEconomics
close_resolution r a = do
  challenge_count ← checked_sub_u64 a.provider_account.value.unresolved_challenge_count 1
  ok (record a {
    provider_account = record a.provider_account {
      value = record a.provider_account.value {
        unresolved_challenge_count = challenge_count;
        updated_at = r.now;
      };
    };
    receipt_settlement = record a.receipt_settlement {
      value = record a.receipt_settlement.value { updated_at = r.now };
    };
    challenge_bond_record = record a.challenge_bond_record {
      value = record a.challenge_bond_record.value { updated_at = r.now };
    };
  })

unfoldable pub resolve_challenge_economics :
    Runtime → ResolveChallengeEconomics → ℕ → Ledger → Outcome (ResolveChallengeEconomics × Ledger)
unfolding require_attestation_caller apply_resolution close_resolution
resolve_challenge_economics r a resolution_code l = do
  let config = a.config.value
  require_attestation_caller config a.attestation_config
  require (not config.pause_challenge_processing) ErrorCode.challenge_processing_paused
  let settlement = a.receipt_settlement.value
  require (settlement.status == settlement_status_code ReceiptSettlementStatus.recorded)
      ErrorCode.invalid_receipt_settlement_state
  require (settlement.attestation_receipt == a.attestation_receipt)
      ErrorCode.invalid_receipt_settlement
  let bond = a.challenge_bond_record.value
  require
      (bond.attestation_challenge == a.attestation_challenge
        && bond.attestation_receipt == settlement.attestation_receipt)
      ErrorCode.invalid_challenge_bond_record
  require (bond.status == bond_status_code ChallengeBondStatus.locked)
      ErrorCode.invalid_challenge_bond_state
  (a₁, l') ← apply_resolution r a resolution_code l
  a₂ ← close_resolution r a₁
  ok (a₂, l')
