-- ===== src/Examples/Attestations.antt =====
-- A receipt on the chain, submitted to the attestation program.
use clawfarm_masterpool.Prelude.{
  ℕ, ◌+◌, ◌/◌, ◌%◌, ◌≡◌, refl, false, none, some, List, [], ◌∷◌, ◌++◌, ok, pos, ◌+ℤ◌, arith,
}
use clawfarm_masterpool.Runtime.{Account, Ledger, balance}
use clawfarm_masterpool.Masterpool.Accounts.{ReceiptSettlement}
use clawfarm_masterpool.Masterpool.Utils.{
  calculate_bps_amount, calculate_claw_amount, checked_add_u64, checked_sub_u64, checked_add_i128,
  initialize_reward_account, saturate_i64,
}
use clawfarm_masterpool.Attestation.Types.{SubmitReceiptArgs}
use clawfarm_masterpool.Attestation.Accounts.{Config, Receipt}
use clawfarm_masterpool.Attestation.Utils.{
  InstructionsSysvar, CompactReceiptHashInputs, length, to_le_bytes, attester_type_mask,
  validate_submit_receipt_args, build_compact_receipt_hash, receipt_preimage,
  verify_preceding_ed25519_instruction, check_ed25519_bytes, read_u16_le, read_slice,
}
use clawfarm_masterpool.Attestation.Receipt.{
  SubmitReceipt, submit_receipt, record_mining_accounts, submitted_receipt, signed_config,
  signer_accepts,
}
use clawfarm_masterpool.Attestation.Protocol.Agreement.{Agrees}
use clawfarm_masterpool.Attestation.Protocol.Submission.{
  IsAttested, IsSubmitted, submit-IsAttested, submit-Agrees,
}
use clawfarm_masterpool.Masterpool.Receipt.{
  check_record_mining_from_receipt, record_mining_from_receipt, add_provider_pending,
  provider_debt_offset,
}
use clawfarm_masterpool.Attestation.Protocol.Preimage.{IsSized, receipt_preimage_inj}
use clawfarm_masterpool.Masterpool.Receipt.Charge.{IsSnapshot}
use clawfarm_masterpool.Examples.Chain.{derived, chain_at, left, moved, put}
use clawfarm_masterpool.Examples.Accounts.{ledger, mining, signing}

abbrev pub rules : Account Config
rules = record {
  key = derived;
  value = record {
    authority = 50;
    pause_authority = 51;
    challenge_resolver = 52;
    masterpool_program = 100;
    challenge_window_seconds = pos 86_400;
    challenge_resolution_timeout_seconds = pos 172_800;
    is_paused = false;
  };
}

abbrev submitting : SubmitReceipt
submitting = record {
  authority = signing 50;
  config = rules;
  provider_signer = record {
    key = derived;
    value = record {
      signer = 3;
      provider_wallet = 12;
      attester_type_mask = 2;
      status = 1;
      valid_from = pos 0;
      valid_until = pos 0;
    };
  };
  receipt = record { key = derived; value = none };
  masterpool_program = 100;
  masterpool = mining;
}

-- A hash that can be computed here: the number of bytes.
abbrev digest : List ℕ → ℕ
digest bytes = length bytes

abbrev args : SubmitReceiptArgs
args = record {
  request_nonce_hash = 1;
  metadata_hash = 2;
  prompt_tokens = 10;
  completion_tokens = 20;
  charge_atomic = 1_000_000;
  receipt_hash = 203;
}

abbrev word : ℕ → List ℕ
word n = n % 256 ∷ n / 256 ∷ []

unfoldable signature_bytes : List ℕ
unfolding to_le_bytes
signature_bytes =
    1
    ∷ 0
    ∷ (word 80
        ++ (word 65_535
            ++ (word 16
                ++ (word 65_535
                    ++ (word 48
                        ++ (word 32
                            ++ (word 65_535 ++ (to_le_bytes 32 3 ++ to_le_bytes 32 203))))))))

abbrev sysvar : InstructionsSysvar
sysvar = record {
  current_index = some 1;
  instruction_at = λ _. some (record { program_id = 60; accounts = []; bytes = signature_bytes });
  ed25519_program = 60;
}

abbrev submitted : SubmitReceipt × Ledger
submitted =
    left (submit_receipt (chain_at 1_000) digest sysvar submitting args ledger) (submitting, ledger)

submit_runs : submit_receipt (chain_at 1_000) digest sysvar submitting args ledger ≡ ok submitted
unfolding submit_receipt check_record_mining_from_receipt record_mining_accounts submitted_receipt
    signed_config saturate_i64 ◌+ℤ◌ validate_submit_receipt_args signer_accepts attester_type_mask
    build_compact_receipt_hash receipt_preimage verify_preceding_ed25519_instruction
    check_ed25519_bytes read_u16_le read_slice to_le_bytes record_mining_from_receipt
    checked_add_u64 checked_sub_u64 checked_add_i128 calculate_bps_amount calculate_claw_amount
    initialize_reward_account add_provider_pending provider_debt_offset moved balance put
    signature_bytes
submit_runs = refl

submit-IsAttested_example : IsAttested (chain_at 1_000) digest sysvar submitting args
submit-IsAttested_example =
    submit-IsAttested (chain_at 1_000) digest sysvar submitting submitted.0 args ledger submitted.1
      submit_runs

submit-Agrees_example :
    (c : Receipt) × (s : ReceiptSettlement) × (submitted.0.receipt.value ≡ some c)
    × (submitted.0.masterpool.receipt_settlement.value ≡ some s)
    × IsSubmitted (chain_at 1_000) submitting args c
    × IsSnapshot (record_mining_accounts (chain_at 1_000) submitting) 1_000_000 s
    × Agrees (record { receipt = c; settlement = s })
    × (s.payer_user ≡ c.payer_user)
    × (s.provider_wallet ≡ c.provider_wallet)
    × (s.attestation_receipt ≡ derived)
submit-Agrees_example =
    submit-Agrees (chain_at 1_000) digest sysvar submitting submitted.0 args ledger submitted.1
      submit_runs

abbrev hashed : CompactReceiptHashInputs
hashed = record {
  request_nonce_hash = 1;
  metadata_hash = 2;
  provider_wallet = 12;
  payer_user = 11;
  usdc_mint = 22;
  prompt_tokens = 10;
  completion_tokens = 20;
  charge_atomic = 1_000_000;
}

hashed-IsSized : IsSized hashed
hashed-IsSized = record {
  request_nonce_hash = ground arith;
  metadata_hash = ground arith;
  provider_wallet = ground arith;
  payer_user = ground arith;
  usdc_mint = ground arith;
  prompt_tokens = ground arith;
  completion_tokens = ground arith;
  charge_atomic = ground arith;
}

receipt_preimage_inj_example : hashed ≡ record hashed { charge_atomic = 999_999 + 1 }
receipt_preimage_inj_example =
    receipt_preimage_inj hashed (record hashed { charge_atomic = 999_999 + 1 }) hashed-IsSized
      hashed-IsSized refl
