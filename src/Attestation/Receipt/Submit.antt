-- ===== src/Attestation/Receipt/Submit.antt =====
-- `submit_receipt` of programs/clawfarm-attestation/src/instructions/receipt.rs.
use clawfarm_masterpool.Prelude.{
  ℕ, true, false, not, ◌||◌, some, List, ok, ◌>>=◌, ◌>>◌, ℤ, pos, ◌+ℤ◌, leb_ℤ, eqb_ℤ, ◌==◌,
}
use clawfarm_masterpool.Runtime.{
  AnchorError, Outcome, Pubkey, AccountInfo, Account, Slot, Ledger, Runtime, Seeds, default_pubkey,
  signer, seeds_at, vacant, constrain,
}
use Prim.Native.Nat.{bit_and}
use clawfarm_masterpool.Attestation.Error.{ErrorCode}
use clawfarm_masterpool.Attestation.Types.{
  SubmitReceiptArgs, AttesterType, SignerStatus, ReceiptStatus, signer_status_code,
  receipt_status_code, require,
}
use clawfarm_masterpool.Attestation.Accounts.{Config, ProviderSigner, Receipt}
use clawfarm_masterpool.Masterpool.Utils.{saturate_i64}
use clawfarm_masterpool.Masterpool.Receipt.{
  RecordMiningFromReceipt, check_record_mining_from_receipt, record_mining_from_receipt,
}
use clawfarm_masterpool.Attestation.Utils.{
  InstructionsSysvar, build_compact_receipt_hash, validate_submit_receipt_args, attester_type_mask,
  verify_preceding_ed25519_instruction,
}

-- The configuration's address, as the programs called see it: signed for by this program, which owns it.
unfoldable pub signed_config : Runtime → Account Config → AccountInfo
signed_config r config = record {
  key = config.key;
  owner = r.attestation_id;
  is_signer = true;
  executable = false;
}

-- `masterpool` holds the accounts that are passed on: those that only the masterpool reads, and the
-- payer, the delegate, the provider's account and the mint, which this program reads too.
pub record SubmitReceipt : Type 0 where
  pub authority : AccountInfo
  pub config : Account Config
  pub provider_signer : Account ProviderSigner
  pub receipt : Slot Receipt
  pub masterpool_program : Pubkey
  pub masterpool : RecordMiningFromReceipt

-- The constraints of the struct, in the order of its fields, for the nonce given. The provider's account is
-- one of the masterpool, which the masterpool checks again.
unfoldable pub check_submit_receipt : Runtime → SubmitReceipt → ℕ → Outcome (Unit {0})
check_submit_receipt r a nonce = do
  signer a.authority
  seeds_at r r.attestation_id Seeds.config a.config.key
  constrain (a.config.value.authority == a.authority.key) AnchorError.constraint_has_one
  constrain (a.config.value.masterpool_program == a.masterpool_program)
      AnchorError.constraint_has_one
  seeds_at r r.attestation_id
      (Seeds.provider_signer a.provider_signer.value.provider_wallet a.provider_signer.value.signer)
      a.provider_signer.key
  seeds_at r r.attestation_id (Seeds.receipt nonce) a.receipt.key
  vacant a.receipt
  signer a.masterpool.fee_payer
  signer a.masterpool.payment_delegate
  seeds_at r a.masterpool_program Seeds.config a.masterpool.config.key
  constrain (a.masterpool_program == r.masterpool_id) AnchorError.invalid_program_id

-- The accounts of the call to the masterpool.
unfoldable pub record_mining_accounts : Runtime → SubmitReceipt → RecordMiningFromReceipt
unfolding signed_config
record_mining_accounts r a = record a.masterpool {
  attestation_config = signed_config r a.config;
  attestation_receipt = a.receipt.key;
}

unfoldable pub signer_accepts : ProviderSigner → ℤ → Outcome (Unit {0})
unfolding attester_type_mask
signer_accepts s now = do
  require (s.status == signer_status_code SignerStatus.active) ErrorCode.signer_inactive
  require (not (s.signer == default_pubkey)) ErrorCode.signer_mismatch
  require (not (bit_and s.attester_type_mask (attester_type_mask AttesterType.gateway) == 0))
      ErrorCode.signer_attester_type_mismatch
  require (leb_ℤ s.valid_from now) ErrorCode.signer_not_yet_valid
  require (eqb_ℤ s.valid_until (pos 0) || leb_ℤ now s.valid_until) ErrorCode.signer_expired

unfoldable pub submitted_receipt : Runtime → SubmitReceipt → SubmitReceiptArgs → Receipt
submitted_receipt r a args = record {
  receipt_hash = args.receipt_hash;
  signer = a.provider_signer.value.signer;
  payer_user = a.masterpool.payer_user;
  provider_wallet = a.provider_signer.value.provider_wallet;
  submitted_at = r.now;
  challenge_deadline = saturate_i64 (r.now +ℤ a.config.value.challenge_window_seconds);
  finalized_at = pos 0;
  status = receipt_status_code ReceiptStatus.submitted;
  economics_settled = false;
}

unfoldable pub submit_receipt :
    Runtime
    → (List ℕ → ℕ)
    → InstructionsSysvar
    → SubmitReceipt
    → SubmitReceiptArgs
    → Ledger
    → Outcome (SubmitReceipt × Ledger)
unfolding validate_submit_receipt_args signer_accepts submitted_receipt record_mining_accounts
submit_receipt r hash sysvar a args l = do
  validate_submit_receipt_args args
  require (not a.config.value.is_paused) ErrorCode.program_paused
  let s = a.provider_signer.value
  signer_accepts s r.now
  let computed_receipt_hash = build_compact_receipt_hash hash (record {
    request_nonce_hash = args.request_nonce_hash;
    metadata_hash = args.metadata_hash;
    provider_wallet = s.provider_wallet;
    payer_user = a.masterpool.payer_user;
    usdc_mint = a.masterpool.usdc_mint.key;
    prompt_tokens = args.prompt_tokens;
    completion_tokens = args.completion_tokens;
    charge_atomic = args.charge_atomic;
  })
  require (computed_receipt_hash == args.receipt_hash) ErrorCode.receipt_hash_mismatch
  require (a.masterpool.provider_account.value.provider_wallet == s.provider_wallet)
      ErrorCode.receipt_identity_mismatch
  verify_preceding_ed25519_instruction sysvar s.signer args.receipt_hash
  let m = record_mining_accounts r a
  check_record_mining_from_receipt r m
  (m', l') ← record_mining_from_receipt r m args.charge_atomic l
  ok (
    record a {
      receipt = record a.receipt { value = some (submitted_receipt r a args) };
      masterpool = m';
    },
    l',
  )
