-- ===== src/Attestation/Error.antt =====
-- The error codes of programs/clawfarm-attestation/src/error.rs, in the order of the enum.
pub data ErrorCode : Type 0 where
  program_paused invalid_version invalid_proof_mode invalid_request_nonce : ErrorCode
  invalid_proof_id invalid_provider invalid_model invalid_usage_basis : ErrorCode
  invalid_attester_type invalid_token_totals invalid_http_status receipt_expired : ErrorCode
  signer_inactive signer_not_yet_valid signer_expired signer_mismatch : ErrorCode
  provider_mismatch receipt_identity_mismatch signer_attester_type_mismatch
        challenge_window_closed :
      ErrorCode
  receipt_not_challengeable receipt_nonce_mismatch challenge_not_resolvable
        challenge_resolution_invalid :
      ErrorCode
  challenge_type_invalid challenge_type_mismatch challenge_challenger_mismatch
        receipt_not_finalizable :
      ErrorCode
  challenge_window_open invalid_attester_type_mask invalid_validity_window invalid_window :
      ErrorCode
  challenge_resolution_timeout_open invalid_authority invalid_pause_authority
        invalid_challenge_resolver :
      ErrorCode
  invalid_masterpool_program invalid_signer invalid_provider_wallet invalid_program_data : ErrorCode
  unauthorized_initializer string_too_long receipt_hash_mismatch missing_ed25519_instruction :
      ErrorCode
  ed25519_instruction_mismatch receipt_not_closable challenge_not_closable
        receipt_economics_pending :
      ErrorCode
  receipt_already_settled math_overflow : ErrorCode
