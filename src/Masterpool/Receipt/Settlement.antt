-- ===== src/Masterpool/Receipt/Settlement.antt =====
-- What settling a finalized receipt does to the accounts: laws of `settle_finalized_receipt`.
use clawfarm_masterpool.Prelude.{
  ℕ, ◌+◌, ◌≤◌, ◌<◌, ◌≡◌, ◌≢◌, inl, inr, true, false, ok, arith, Result-cases,
}
use clawfarm_masterpool.Runtime.{Ledger, Runtime}
use clawfarm_masterpool.Masterpool.Error.{ErrorCode}
use clawfarm_masterpool.Masterpool.Constants.{attestation_receipt_status_finalized, u64_mod}
use clawfarm_masterpool.Masterpool.Types.{ReceiptSettlementStatus, settlement_status_code}
use clawfarm_masterpool.Masterpool.Accounts.{RewardAccount}
use clawfarm_masterpool.Masterpool.Utils.{
  fail, checked_add_u64, checked_sub_u64, require_attestation_caller,
}
use clawfarm_masterpool.Masterpool.Receipt.{
  SettleFinalizedReceipt, settle_finalized_receipt, lock_pending,
}

-- What was pending is locked: `moved` CLAW changes sides, the sum of the two and all else stays.
pub record LocksPending (before after : RewardAccount) (moved : ℕ) : Type 0 where
  pub pending : after.pending_claw_total + moved ≡ before.pending_claw_total
  pub locked : after.locked_claw_total ≡ before.locked_claw_total + moved
  pub released : after.released_claw_total ≡ before.released_claw_total
  pub claimed : after.claimed_claw_total ≡ before.claimed_claw_total
  pub owner : after.owner ≡ before.owner
  pub kind : after.reward_kind ≡ before.reward_kind

-- What a settlement that succeeds did.
pub record IsSettled (r : Runtime) (a a' : SettleFinalizedReceipt) (status : ℕ) (l l' : Ledger)
    : Type 0 where
  pub attested : status ≡ attestation_receipt_status_finalized
  pub before :
      a.receipt_settlement.value.status ≡ settlement_status_code ReceiptSettlementStatus.recorded
  pub after :
      a'.receipt_settlement.value.status
      ≡ settlement_status_code ReceiptSettlementStatus.finalized_settled
  pub lock_start : a'.receipt_settlement.value.reward_lock_started_at ≡ r.now
  pub user :
      LocksPending a.user_reward_account.value a'.user_reward_account.value
        a.receipt_settlement.value.claw_to_user
  pub provider :
      LocksPending a.provider_reward_account.value a'.provider_reward_account.value
        a.receipt_settlement.value.claw_to_provider_locked
  pub pending_usdc :
      a'.provider_account.value.pending_provider_usdc + a.receipt_settlement.value.usdc_to_provider
      ≡ a.provider_account.value.pending_provider_usdc
  pub receipts :
      a'.provider_account.value.unsettled_receipt_count + 1
      ≡ a.provider_account.value.unsettled_receipt_count
  pub net_position :
      a'.provider_account.value.claw_net_position ≡ a.provider_account.value.claw_net_position
  pub owner : a.provider_destination_usdc.value.owner ≡ a.receipt_settlement.value.provider_wallet
  pub mint : a.provider_destination_usdc.value.mint ≡ a.config.value.usdc_mint
  pub payment :
      r.transfer_checked a.provider_pending_usdc_vault.key a.usdc_mint.key
        a.provider_destination_usdc.key a.pool_authority a.receipt_settlement.value.usdc_to_provider
        a.usdc_mint.value.decimals l
      ≡ ok l'

-- A receipt is settled only with the attestation status `Finalized` and from the state `Recorded`, by the
-- configured attestation program, while finalization is not paused. It then is `FinalizedSettled` and
-- its lock starts now; the user's CLAW and the provider's locked CLAW go from pending to locked; the
-- provider has its USDC no longer pending and one unsettled receipt less, with the net position kept;
-- and the ledger is that of the transfer of the receipt's provider USDC from the pending vault to a USDC
-- account that the provider's wallet owns.
pub settle-IsSettled :
    (r : Runtime) (a a' : SettleFinalizedReceipt) (status : ℕ) (l l' : Ledger)
    → settle_finalized_receipt r a status l ≡ ok (a', l')
    → IsSettled r a a' status l l'
      × (a.config.value.pause_finalization ≡ false)
      × (a.attestation_config.owner ≡ a.config.value.attestation_program)
      × (a.attestation_config.is_signer ≡ true)
unfolding settle_finalized_receipt lock_pending checked_sub_u64 checked_add_u64
settle-IsSettled r a a' status l l' h = ground arith

-- A call by the attestation program that passes the pause and the attested status fails with
-- `InvalidReceiptSettlementState` if the settlement, of the given receipt, has left the state
-- `Recorded`: no receipt is paid out twice, or after it was reverted.
pub settle_needs_recorded :
    (r : Runtime) (a : SettleFinalizedReceipt) (status : ℕ) (l : Ledger)
    → require_attestation_caller a.config.value a.attestation_config ≡ ok tt
    → a.config.value.pause_finalization ≡ false
    → status ≡ attestation_receipt_status_finalized
    → a.receipt_settlement.value.attestation_receipt ≡ a.attestation_receipt
    → a.receipt_settlement.value.status ≢ settlement_status_code ReceiptSettlementStatus.recorded
    → settle_finalized_receipt r a status l ≡ fail ErrorCode.invalid_receipt_settlement_state
unfolding settle_finalized_receipt
settle_needs_recorded r a status l c p f k n = ground arith

-- What a provider and its reward accounts must hold for a receipt to be settled.
pub record Covers (a : SettleFinalizedReceipt) : Type 0 where
  pub user_pending :
      a.receipt_settlement.value.claw_to_user ≤ a.user_reward_account.value.pending_claw_total
  pub user_room :
      a.user_reward_account.value.locked_claw_total + a.receipt_settlement.value.claw_to_user
      < u64_mod
  pub provider_pending :
      a.receipt_settlement.value.claw_to_provider_locked
      ≤ a.provider_reward_account.value.pending_claw_total
  pub provider_room :
      a.provider_reward_account.value.locked_claw_total
        + a.receipt_settlement.value.claw_to_provider_locked
      < u64_mod
  pub pending_usdc :
      a.receipt_settlement.value.usdc_to_provider ≤ a.provider_account.value.pending_provider_usdc
  pub receipts : 0 < a.provider_account.value.unsettled_receipt_count

-- Nothing but its checks stands in the way of settling a recorded receipt: where the caller, the pause, the
-- state, the identities and the destination pass, the counters cover the settlement and the token
-- program accepts the transfer, the call succeeds, with the ledger of that transfer.
pub settle_succeeds :
    (r : Runtime) (a : SettleFinalizedReceipt) (l l' : Ledger)
    → require_attestation_caller a.config.value a.attestation_config ≡ ok tt
    → a.config.value.pause_finalization ≡ false
    → a.receipt_settlement.value.attestation_receipt ≡ a.attestation_receipt
    → a.receipt_settlement.value.status ≡ settlement_status_code ReceiptSettlementStatus.recorded
    → a.provider_account.value.provider_wallet ≡ a.receipt_settlement.value.provider_wallet
    → a.provider_destination_usdc.value.owner ≡ a.receipt_settlement.value.provider_wallet
    → a.provider_destination_usdc.value.mint ≡ a.config.value.usdc_mint
    → Covers a
    → r.transfer_checked a.provider_pending_usdc_vault.key a.usdc_mint.key
        a.provider_destination_usdc.key a.pool_authority a.receipt_settlement.value.usdc_to_provider
        a.usdc_mint.value.decimals l
      ≡ ok l'
    → (a' : SettleFinalizedReceipt) × (settle_finalized_receipt r a
          attestation_receipt_status_finalized l
        ≡ ok (a', l'))
unfolding settle_finalized_receipt lock_pending checked_sub_u64 checked_add_u64
settle_succeeds r a l l' c p k n w o m v e =
    elim (Result-cases (settle_finalized_receipt r a attestation_receipt_status_finalized l)) [
      | inl ((a', l''), h) ↦ (a', ground arith)
      | inr (f, h) ↦ absurd (ground arith)
    ]
