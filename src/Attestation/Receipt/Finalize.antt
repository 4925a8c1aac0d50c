-- ===== src/Attestation/Receipt/Finalize.antt =====
-- `finalize_receipt` and `close_receipt` of programs/clawfarm-attestation/src/instructions/receipt.rs.
use clawfarm_masterpool.Prelude.{
  ℕ, Bool, true, not, ◌||◌, none, ok, ◌>>=◌, ◌>>◌, ℤ, ltb_ℤ, ◌==◌, if◌then◌else◌,
}
use clawfarm_masterpool.Runtime.{
  AnchorError, Outcome, Pubkey, AccountInfo, Account, Slot, Ledger, Runtime, Seeds, signer,
  seeds_at, constrain,
}
use clawfarm_masterpool.Attestation.Error.{ErrorCode}
use clawfarm_masterpool.Attestation.Types.{ReceiptStatus, receipt_status_code, require, fail}
use clawfarm_masterpool.Attestation.Accounts.{Config, Receipt}
use clawfarm_masterpool.Masterpool.Receipt.{
  SettleFinalizedReceipt, check_settle_finalized_receipt, settle_finalized_receipt,
}
use clawfarm_masterpool.Attestation.Receipt.Submit.{signed_config}

-- `masterpool` holds the accounts that are passed on.
pub record FinalizeReceipt : Type 0 where
  pub authority : AccountInfo
  pub config : Account Config
  pub receipt : Account Receipt
  pub masterpool_program : Pubkey
  pub masterpool : SettleFinalizedReceipt

-- The constraints of the struct, in the order of its fields.
unfoldable pub check_finalize_receipt : Runtime → FinalizeReceipt → Outcome (Unit {0})
check_finalize_receipt r a = do
  signer a.authority
  seeds_at r r.attestation_id Seeds.config a.config.key
  constrain (a.config.value.authority == a.authority.key) AnchorError.constraint_has_one
  constrain (a.config.value.masterpool_program == a.masterpool_program)
      AnchorError.constraint_has_one
  seeds_at r a.masterpool_program Seeds.config a.masterpool.config.key
  constrain (a.masterpool_program == r.masterpool_id) AnchorError.invalid_program_id

-- The `match` on the status: a submitted receipt is finalized after its window, and a finalized one
-- must not be settled yet.
unfoldable pub finalized_receipt : Receipt → ℤ → Outcome Receipt
finalized_receipt receipt now =
    if receipt.status == receipt_status_code ReceiptStatus.submitted
    then (do
      require (ltb_ℤ receipt.challenge_deadline now) ErrorCode.challenge_window_open
      ok (record receipt {
        status = receipt_status_code ReceiptStatus.finalized;
        finalized_at = now;
      }))
    else if receipt.status == receipt_status_code ReceiptStatus.finalized
    then (do require (not receipt.economics_settled) ErrorCode.receipt_already_settled; ok receipt)
    else fail ErrorCode.receipt_not_finalizable

unfoldable pub settle_accounts : Runtime → FinalizeReceipt → SettleFinalizedReceipt
unfolding signed_config
settle_accounts r a = record a.masterpool {
  attestation_config = signed_config r a.config;
  attestation_receipt = a.receipt.key;
}

unfoldable pub finalize_receipt :
    Runtime → FinalizeReceipt → Ledger → Outcome (FinalizeReceipt × Ledger)
unfolding settle_accounts
finalize_receipt r a l = do
  receipt ← finalized_receipt a.receipt.value r.now
  let m = settle_accounts r a
  check_settle_finalized_receipt r m
  (m', l') ← settle_finalized_receipt r m (receipt_status_code ReceiptStatus.finalized) l
  ok (
    record a {
      receipt = record a.receipt { value = record receipt { economics_settled = true } };
      masterpool = m';
    },
    l',
  )

unfoldable pub is_terminal_receipt_status : ℕ → Bool
is_terminal_receipt_status status =
    status == receipt_status_code ReceiptStatus.finalized
    || status == receipt_status_code ReceiptStatus.rejected
    || status == receipt_status_code ReceiptStatus.slashed

pub record CloseReceipt : Type 0 where
  pub authority : AccountInfo
  pub config : Account Config
  pub receipt : Account Receipt

-- The constraints of the struct, in the order of its fields.
unfoldable pub check_close_receipt : Runtime → CloseReceipt → Outcome (Unit {0})
check_close_receipt r a = do
  signer a.authority
  seeds_at r r.attestation_id Seeds.config a.config.key
  constrain (a.config.value.authority == a.authority.key) AnchorError.constraint_has_one

-- The account is closed when the call succeeds: its slot is empty.
unfoldable pub close_receipt : CloseReceipt → Outcome (Slot Receipt)
unfolding is_terminal_receipt_status
close_receipt a = do
  require (is_terminal_receipt_status a.receipt.value.status) ErrorCode.receipt_not_closable
  require a.receipt.value.economics_settled ErrorCode.receipt_economics_pending
  ok (record { key = a.receipt.key; value = none })
