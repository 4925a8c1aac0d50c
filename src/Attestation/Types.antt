-- ===== src/Attestation/Types.antt =====
-- The enums and argument record of programs/clawfarm-attestation/src/state/types.rs, with the `u8` that
-- an account stores for each enum, and the conversions back. `ProofMode` and `UsageBasis` are not
-- used by the program.
use clawfarm_masterpool.Prelude.{ℕ, Bool, ok, err, guard, ◌==◌, if◌then◌else◌}
use clawfarm_masterpool.Runtime.{Error, Outcome}
use clawfarm_masterpool.Attestation.Error.{ErrorCode}

-- `require!(test, ErrorCode::code)`
abbrev pub require : Bool → ErrorCode → Outcome (Unit {0})
require b e = guard b (Error.attestation e)

abbrev pub fail : {A : Type 0} → ErrorCode → Outcome A
fail e = err (Error.attestation e)

pub record SubmitReceiptArgs : Type 0 where
  pub request_nonce_hash : ℕ
  pub metadata_hash : ℕ
  pub prompt_tokens : ℕ
  pub completion_tokens : ℕ
  pub charge_atomic : ℕ
  pub receipt_hash : ℕ

pub data AttesterType : Type 0 where
  provider gateway hybrid : AttesterType

pub data SignerStatus : Type 0 where
  inactive active revoked : SignerStatus

pub data ReceiptStatus : Type 0 where
  submitted challenged finalized rejected slashed : ReceiptStatus

pub data ChallengeStatus : Type 0 where
  opened accepted rejected : ChallengeStatus

pub data ChallengeType : Type 0 where
  invalid_signature signer_registry_mismatch replay_nonce : ChallengeType
  invalid_log_inclusion payload_mismatch : ChallengeType

pub data ResolutionCode : Type 0 where
  unresolved accepted rejected receipt_invalidated signer_revoked : ResolutionCode

abbrev pub attester_type_code : AttesterType → ℕ
attester_type_code AttesterType.provider = 0
attester_type_code AttesterType.gateway = 1
attester_type_code AttesterType.hybrid = 2

abbrev pub signer_status_code : SignerStatus → ℕ
signer_status_code SignerStatus.inactive = 0
signer_status_code SignerStatus.active = 1
signer_status_code SignerStatus.revoked = 2

abbrev pub receipt_status_code : ReceiptStatus → ℕ
receipt_status_code ReceiptStatus.submitted = 0
receipt_status_code ReceiptStatus.challenged = 1
receipt_status_code ReceiptStatus.finalized = 2
receipt_status_code ReceiptStatus.rejected = 3
receipt_status_code ReceiptStatus.slashed = 4

abbrev pub challenge_status_code : ChallengeStatus → ℕ
challenge_status_code ChallengeStatus.opened = 0
challenge_status_code ChallengeStatus.accepted = 1
challenge_status_code ChallengeStatus.rejected = 2

abbrev pub challenge_type_code : ChallengeType → ℕ
challenge_type_code ChallengeType.invalid_signature = 0
challenge_type_code ChallengeType.signer_registry_mismatch = 1
challenge_type_code ChallengeType.replay_nonce = 2
challenge_type_code ChallengeType.invalid_log_inclusion = 3
challenge_type_code ChallengeType.payload_mismatch = 4

-- `ResolutionCode::None` is `unresolved`.
abbrev pub resolution_code_number : ResolutionCode → ℕ
resolution_code_number ResolutionCode.unresolved = 0
resolution_code_number ResolutionCode.accepted = 1
resolution_code_number ResolutionCode.rejected = 2
resolution_code_number ResolutionCode.receipt_invalidated = 3
resolution_code_number ResolutionCode.signer_revoked = 4

-- `ChallengeType::try_from`
unfoldable pub challenge_type_of : ℕ → Outcome ChallengeType
challenge_type_of value =
    if value == 0
    then ok ChallengeType.invalid_signature
    else if value == 1
    then ok ChallengeType.signer_registry_mismatch
    else if value == 2
    then ok ChallengeType.replay_nonce
    else if value == 3
    then ok ChallengeType.invalid_log_inclusion
    else if value == 4
    then ok ChallengeType.payload_mismatch
    else fail ErrorCode.challenge_type_invalid

-- `ResolutionCode::try_from`
unfoldable pub resolution_code_of : ℕ → Outcome ResolutionCode
resolution_code_of value =
    if value == 0
    then ok ResolutionCode.unresolved
    else if value == 1
    then ok ResolutionCode.accepted
    else if value == 2
    then ok ResolutionCode.rejected
    else if value == 3
    then ok ResolutionCode.receipt_invalidated
    else if value == 4
    then ok ResolutionCode.signer_revoked
    else fail ErrorCode.challenge_resolution_invalid
