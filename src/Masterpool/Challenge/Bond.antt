-- ===== src/Masterpool/Challenge/Bond.antt =====
-- `record_challenge_bond` of programs/clawfarm-masterpool/src/instructions/challenge.rs.
use clawfarm_masterpool.Prelude.{not, some, ok, ◌>>=◌, ◌>>◌, ◌==◌}
use clawfarm_masterpool.Runtime.{
  Outcome, Pubkey, AccountInfo, Account, Slot, TokenAccount, Mint, Ledger, Runtime, Seeds, signer,
  seeds_at, vacant,
}
use clawfarm_masterpool.Masterpool.Error.{ErrorCode}
use clawfarm_masterpool.Masterpool.Types.{
  ReceiptSettlementStatus, ChallengeBondStatus, settlement_status_code, bond_status_code,
}
use clawfarm_masterpool.Masterpool.Accounts.{
  GlobalConfig, ProviderAccount, ReceiptSettlement, ChallengeBondRecord,
}
use clawfarm_masterpool.Masterpool.Utils.{
  require, calculate_bps_amount, checked_add_u64, checked_sub_u64, require_attestation_caller,
  require_token_owner, require_token_mint,
}

pub record RecordChallengeBond : Type 0 where
  pub config : Account GlobalConfig
  pub attestation_config : AccountInfo
  pub challenger : AccountInfo
  pub challenger_claw_token : Account TokenAccount
  pub attestation_receipt : Pubkey
  pub attestation_challenge : Pubkey
  pub receipt_settlement : Account ReceiptSettlement
  pub provider_account : Account ProviderAccount
  pub challenge_bond_record : Slot ChallengeBondRecord
  pub challenge_bond_vault : Pubkey
  pub claw_mint : Account Mint

-- The constraints of the struct, in the order of its fields.
unfoldable pub check_record_challenge_bond : Runtime → RecordChallengeBond → Outcome (Unit {0})
check_record_challenge_bond r a = do
  seeds_at r r.masterpool_id Seeds.config a.config.key
  signer a.attestation_config
  seeds_at r config.attestation_program Seeds.config a.attestation_config.key
  signer a.challenger
  seeds_at r r.masterpool_id (Seeds.receipt_settlement a.attestation_receipt)
      a.receipt_settlement.key
  seeds_at r r.masterpool_id (Seeds.provider settlement.provider_wallet) a.provider_account.key
  require (a.provider_account.value.provider_wallet == settlement.provider_wallet)
      ErrorCode.invalid_provider_account
  seeds_at r r.masterpool_id (Seeds.challenge_bond_record a.attestation_challenge)
      a.challenge_bond_record.key
  vacant a.challenge_bond_record
  require (a.challenge_bond_vault == config.challenge_bond_vault) ErrorCode.invalid_vault_account
  require (a.claw_mint.key == config.claw_mint) ErrorCode.invalid_claw_mint
  where
    config : GlobalConfig
    config = a.config.value

    settlement : ReceiptSettlement
    settlement = a.receipt_settlement.value

unfoldable pub record_challenge_bond :
    Runtime → RecordChallengeBond → Ledger → Outcome (RecordChallengeBond × Ledger)
unfolding require_attestation_caller require_token_owner require_token_mint
record_challenge_bond r a l = do
  let config = a.config.value
  require_attestation_caller config a.attestation_config
  require (not config.pause_challenge_processing) ErrorCode.challenge_processing_paused
  let settlement = a.receipt_settlement.value
  require (settlement.status == settlement_status_code ReceiptSettlementStatus.recorded)
      ErrorCode.invalid_receipt_settlement_state
  require_token_owner a.challenger_claw_token.value a.challenger.key
  require_token_mint a.challenger_claw_token.value config.claw_mint
  l' ←
      r.transfer_checked a.challenger_claw_token.key a.claw_mint.key a.challenge_bond_vault
        a.challenger.key config.challenge_bond_claw_amount a.claw_mint.value.decimals l
  challenger_reward_amount ←
      calculate_bps_amount config.provider_slash_claw_amount config.challenger_reward_bps
  burn_amount ← checked_sub_u64 config.provider_slash_claw_amount challenger_reward_amount
  let provider = a.provider_account.value
  challenge_count ← checked_add_u64 provider.unresolved_challenge_count 1
  ok (
    record a {
      challenge_bond_record = record a.challenge_bond_record {
        value = some (record {
          attestation_challenge = a.attestation_challenge;
          attestation_receipt = a.attestation_receipt;
          challenger = a.challenger.key;
          payer_user = settlement.payer_user;
          provider_wallet = settlement.provider_wallet;
          bond_amount = config.challenge_bond_claw_amount;
          slash_claw_amount_snapshot = config.provider_slash_claw_amount;
          challenger_reward_bps_snapshot = config.challenger_reward_bps;
          burn_bps_snapshot = config.burn_bps;
          challenger_reward_amount = challenger_reward_amount;
          burn_amount = burn_amount;
          status = bond_status_code ChallengeBondStatus.locked;
          created_at = r.now;
          updated_at = r.now;
        });
      };
      provider_account = record a.provider_account {
        value = record provider {
          unresolved_challenge_count = challenge_count;
          updated_at = r.now;
        };
      };
    },
    l',
  )
