-- ===== src/Masterpool/Error.antt =====
-- The error codes of programs/clawfarm-masterpool/src/error.rs, in the order of the enum.
pub data ErrorCode : Type 0 where
  unauthorized_admin unauthorized_attestation_caller invalid_attestation_program
        invalid_program_data :
      ErrorCode
  unauthorized_initializer invalid_claw_mint invalid_usdc_mint invalid_vault_account : ErrorCode
  invalid_token_owner invalid_token_mint invalid_payment_delegate insufficient_delegated_allowance :
      ErrorCode
  invalid_reward_account_owner invalid_reward_account_kind invalid_provider_account
        invalid_receipt_settlement :
      ErrorCode
  invalid_challenge_bond_record invalid_mint_decimals invalid_claw_mint_authority
        invalid_claw_freeze_authority :
      ErrorCode
  invalid_governance_parameters invalid_split_invariant invalid_positive_amount math_overflow :
      ErrorCode
  genesis_already_minted receipt_recording_paused challenge_processing_paused finalization_paused :
      ErrorCode
  claims_paused provider_already_registered provider_not_active provider_exit_blocked : ErrorCode
  receipt_settlement_already_exists invalid_receipt_settlement_state challenge_bond_already_exists
        invalid_challenge_bond_state :
      ErrorCode
  invalid_attestation_receipt_status invalid_challenge_resolution charge_mint_mismatch
        receipt_charge_too_large :
      ErrorCode
  no_claimable_rewards reward_release_exceeds_locked reward_release_exceeds_vested
        reward_lock_not_started :
      ErrorCode
  faucet_disabled invalid_faucet_amount invalid_faucet_limits faucet_claim_limit_exceeded :
      ErrorCode
  faucet_wallet_daily_limit_exceeded faucet_global_daily_limit_exceeded
        faucet_vault_insufficient_balance invalid_faucet_vault :
      ErrorCode
  invalid_faucet_user_state : ErrorCode
