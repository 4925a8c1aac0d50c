-- ===== src/Attestation/Challenge/Opening.antt =====
-- `open_challenge` of programs/clawfarm-attestation/src/instructions/challenge.rs.
use clawfarm_masterpool.Prelude.{ℕ, some, ok, ◌>>=◌, ◌>>◌, pos, leb_ℤ, ◌==◌}
use clawfarm_masterpool.Runtime.{
  AnchorError, Outcome, Pubkey, Account, Slot, Ledger, Runtime, Seeds, signer, seeds_at, vacant,
  constrain,
}
use clawfarm_masterpool.Attestation.Error.{ErrorCode}
use clawfarm_masterpool.Attestation.Types.{
  ReceiptStatus, ChallengeStatus, ResolutionCode, receipt_status_code, challenge_status_code,
  challenge_type_code, resolution_code_number, challenge_type_of, require,
}
use clawfarm_masterpool.Attestation.Accounts.{Config, Receipt, Challenge}
use clawfarm_masterpool.Masterpool.Challenge.{
  RecordChallengeBond, check_record_challenge_bond, record_challenge_bond,
}
use clawfarm_masterpool.Attestation.Receipt.{signed_config}

-- `masterpool` holds the accounts that are passed on, with the challenger and its token account.
pub record OpenChallenge : Type 0 where
  pub config : Account Config
  pub receipt : Account Receipt
  pub challenge : Slot Challenge
  pub masterpool_program : Pubkey
  pub masterpool : RecordChallengeBond

-- The constraints of the struct, in the order of its fields.
unfoldable pub check_open_challenge : Runtime → OpenChallenge → Outcome (Unit {0})
check_open_challenge r a = do
  signer a.masterpool.challenger
  seeds_at r r.attestation_id Seeds.config a.config.key
  constrain (a.config.value.masterpool_program == a.masterpool_program)
      AnchorError.constraint_has_one
  seeds_at r r.attestation_id (Seeds.challenge a.receipt.key) a.challenge.key
  vacant a.challenge
  seeds_at r a.masterpool_program Seeds.config a.masterpool.config.key
  constrain (a.masterpool_program == r.masterpool_id) AnchorError.invalid_program_id

unfoldable pub bond_accounts : Runtime → OpenChallenge → RecordChallengeBond
unfolding signed_config
bond_accounts r a = record a.masterpool {
  attestation_config = signed_config r a.config;
  attestation_receipt = a.receipt.key;
  attestation_challenge = a.challenge.key;
}

unfoldable pub open_challenge :
    Runtime → OpenChallenge → ℕ → ℕ → Ledger → Outcome (OpenChallenge × Ledger)
unfolding challenge_type_of bond_accounts
open_challenge r a challenge_type evidence_hash l = do
  kind ← challenge_type_of challenge_type
  let receipt = a.receipt.value
  require (receipt.status == receipt_status_code ReceiptStatus.submitted)
      ErrorCode.receipt_not_challengeable
  require (leb_ℤ r.now receipt.challenge_deadline) ErrorCode.challenge_window_closed
  let m = bond_accounts r a
  check_record_challenge_bond r m
  (m', l') ← record_challenge_bond r m l
  ok (
    record a {
      challenge = record a.challenge {
        value = some (record {
          receipt = a.receipt.key;
          challenger = a.masterpool.challenger.key;
          challenge_type = challenge_type_code kind;
          evidence_hash = evidence_hash;
          bond_amount = a.masterpool.config.value.challenge_bond_claw_amount;
          opened_at = r.now;
          resolved_at = pos 0;
          status = challenge_status_code ChallengeStatus.opened;
          resolution_code = resolution_code_number ResolutionCode.unresolved;
        });
      };
      receipt = record a.receipt {
        value = record receipt { status = receipt_status_code ReceiptStatus.challenged };
      };
      masterpool = m';
    },
    l',
  )
