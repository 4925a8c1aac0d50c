-- ===== src/Attestation/Challenge/Resolving.antt =====
-- `resolve_challenge`, `timeout_reject_challenge` and `close_challenge` of
-- programs/clawfarm-attestation/src/instructions/challenge.rs.
use clawfarm_masterpool.Prelude.{
  ℕ, Bool, true, false, not, ◌||◌, none, ok, ◌>>=◌, ◌>>◌, ℤ, pos, negsuc, ◌+ℤ◌, ltb_ℤ, ltb, ◌==◌,
}
use clawfarm_masterpool.Runtime.{
  AnchorError, Outcome, Pubkey, AccountInfo, Account, Slot, Ledger, Runtime, Seeds, signer,
  seeds_at, constrain,
}
use clawfarm_masterpool.Attestation.Error.{ErrorCode}
use clawfarm_masterpool.Attestation.Types.{
  ReceiptStatus, ChallengeStatus, ResolutionCode, receipt_status_code, challenge_status_code,
  resolution_code_number, resolution_code_of, require,
}
use clawfarm_masterpool.Attestation.Accounts.{Config, Receipt, Challenge}
use clawfarm_masterpool.Masterpool.Constants.{i64_bound}
use clawfarm_masterpool.Masterpool.Challenge.{
  ResolveChallengeEconomics, check_resolve_challenge_economics, resolve_challenge_economics,
}
use clawfarm_masterpool.Attestation.Receipt.{signed_config}

-- The accounts of `ResolveChallenge` and of `TimeoutRejectChallenge`, which differ in the signer: the
-- resolver there, the authority here. `masterpool` holds the accounts that are passed on.
pub record ResolveChallenge : Type 0 where
  pub authority : AccountInfo
  pub config : Account Config
  pub receipt : Account Receipt
  pub challenge : Account Challenge
  pub masterpool_program : Pubkey
  pub masterpool : ResolveChallengeEconomics

abbrev check_resolution : Runtime → ResolveChallenge → Outcome (Unit {0})
check_resolution r a = do
  constrain (a.config.value.masterpool_program == a.masterpool_program)
      AnchorError.constraint_has_one
  require (a.challenge.value.receipt == a.receipt.key) ErrorCode.receipt_nonce_mismatch
  seeds_at r a.masterpool_program Seeds.config a.masterpool.config.key
  constrain (a.masterpool_program == r.masterpool_id) AnchorError.invalid_program_id

-- The constraints of `ResolveChallenge`, in the order of its fields.
unfoldable pub check_resolve_challenge : Runtime → ResolveChallenge → Outcome (Unit {0})
check_resolve_challenge r a = do
  signer a.authority
  seeds_at r r.attestation_id Seeds.config a.config.key
  constrain (a.config.value.challenge_resolver == a.authority.key) AnchorError.constraint_has_one
  check_resolution r a

-- The constraints of `TimeoutRejectChallenge`, in the order of its fields.
unfoldable pub check_timeout_reject_challenge : Runtime → ResolveChallenge → Outcome (Unit {0})
check_timeout_reject_challenge r a = do
  signer a.authority
  seeds_at r r.attestation_id Seeds.config a.config.key
  constrain (a.config.value.authority == a.authority.key) AnchorError.constraint_has_one
  check_resolution r a

unfoldable pub resolve_accounts : Runtime → ResolveChallenge → ResolveChallengeEconomics
unfolding signed_config
resolve_accounts r a = record a.masterpool {
  attestation_config = signed_config r a.config;
  attestation_receipt = a.receipt.key;
  attestation_challenge = a.challenge.key;
}

-- How a resolution leaves the challenge and the receipt.
pub record Verdict : Type 0 where
  pub challenge_status : ChallengeStatus
  pub receipt_status : ReceiptStatus
  pub economics_settled : Bool

-- The `match` on the code, which is not `None` there.
unfoldable pub verdict : ResolutionCode → Verdict
verdict ResolutionCode.unresolved = record {
  challenge_status = ChallengeStatus.opened;
  receipt_status = ReceiptStatus.challenged;
  economics_settled = false;
}
verdict ResolutionCode.accepted = record {
  challenge_status = ChallengeStatus.accepted;
  receipt_status = ReceiptStatus.rejected;
  economics_settled = true;
}
verdict ResolutionCode.receipt_invalidated = record {
  challenge_status = ChallengeStatus.accepted;
  receipt_status = ReceiptStatus.rejected;
  economics_settled = true;
}
verdict ResolutionCode.signer_revoked = record {
  challenge_status = ChallengeStatus.accepted;
  receipt_status = ReceiptStatus.slashed;
  economics_settled = true;
}
verdict ResolutionCode.rejected = record {
  challenge_status = ChallengeStatus.rejected;
  receipt_status = ReceiptStatus.finalized;
  economics_settled = false;
}

-- The writes and the call that every resolution makes, with its own verdict.
unfoldable pub enact :
    Runtime → ResolveChallenge → ResolutionCode → Ledger → Outcome (ResolveChallenge × Ledger)
unfolding verdict resolve_accounts
enact r a code l = do
  require (a.challenge.value.status == challenge_status_code ChallengeStatus.opened)
      ErrorCode.challenge_not_resolvable
  let m = resolve_accounts r a
  check_resolve_challenge_economics r m
  (m', l') ← resolve_challenge_economics r m (resolution_code_number code) l
  ok (
    record a {
      challenge = record a.challenge {
        value = record a.challenge.value {
          status = challenge_status_code (verdict code).challenge_status;
          resolution_code = resolution_code_number code;
          resolved_at = r.now;
        };
      };
      receipt = record a.receipt {
        value = record a.receipt.value {
          status = receipt_status_code (verdict code).receipt_status;
          finalized_at = r.now;
          economics_settled = (verdict code).economics_settled;
        };
      };
      masterpool = m';
    },
    l',
  )

unfoldable pub is_unresolved : ResolutionCode → Bool
is_unresolved ResolutionCode.unresolved = true
is_unresolved _ = false

unfoldable pub resolve_challenge :
    Runtime → ResolveChallenge → ℕ → Ledger → Outcome (ResolveChallenge × Ledger)
unfolding is_unresolved resolution_code_of
resolve_challenge r a resolution_code l = do
  code ← resolution_code_of resolution_code
  require (not (is_unresolved code)) ErrorCode.challenge_resolution_invalid
  enact r a code l

-- Whether an integer is an `i64`.
abbrev is_i64 : ℤ → Bool
is_i64 (pos n) = ltb n i64_bound
is_i64 (negsuc n) = ltb n i64_bound

unfoldable pub timeout_reject_challenge :
    Runtime → ResolveChallenge → Ledger → Outcome (ResolveChallenge × Ledger)
timeout_reject_challenge r a l = do
  let timeout_deadline =
      a.challenge.value.opened_at +ℤ a.config.value.challenge_resolution_timeout_seconds
  require (is_i64 timeout_deadline) ErrorCode.math_overflow
  require (ltb_ℤ timeout_deadline r.now) ErrorCode.challenge_resolution_timeout_open
  enact r a ResolutionCode.rejected l

pub record CloseChallenge : Type 0 where
  pub authority : AccountInfo
  pub config : Account Config
  pub challenge : Account Challenge

-- The constraints of the struct, in the order of its fields.
unfoldable pub check_close_challenge : Runtime → CloseChallenge → Outcome (Unit {0})
check_close_challenge r a = do
  signer a.authority
  seeds_at r r.attestation_id Seeds.config a.config.key
  constrain (a.config.value.authority == a.authority.key) AnchorError.constraint_has_one

-- The account is closed when the call succeeds: its slot is empty.
unfoldable pub close_challenge : CloseChallenge → Outcome (Slot Challenge)
close_challenge a = do
  require
      (a.challenge.value.status == challenge_status_code ChallengeStatus.accepted
        || a.challenge.value.status == challenge_status_code ChallengeStatus.rejected)
      ErrorCode.challenge_not_closable
  ok (record { key = a.challenge.key; value = none })
