-- ===== src/Masterpool/Receipt/Charge.antt =====
-- What a recorded receipt charges, books and snapshots: laws of `record_mining_from_receipt`.
use clawfarm_masterpool.Prelude.{
  ℕ, ◌+◌, ◌*◌, ◌/◌, ◌<◌, ◌≡◌, ◌≢◌, ◌⊎◌, inl, inr, true, none, some, ok, pos, ◌+ℤ◌, ◌≤ℤ◌, ◌<ℤ◌,
  arith, Option-cases,
}
use clawfarm_masterpool.Runtime.{Ledger, Runtime}
use clawfarm_masterpool.Masterpool.Constants.{bps_scale, rate_scale}
use clawfarm_masterpool.Masterpool.Types.{ReceiptSettlementStatus, settlement_status_code}
use clawfarm_masterpool.Masterpool.Accounts.{RewardAccount, ReceiptSettlement}
use clawfarm_masterpool.Masterpool.Utils.{
  calculate_bps_amount, calculate_claw_amount, checked_add_u64, checked_sub_u64, checked_add_i128,
  initialize_reward_account,
}
use clawfarm_masterpool.Masterpool.Receipt.{
  RecordMiningFromReceipt, record_mining_from_receipt, provider_debt_offset, add_provider_pending,
}

-- The settlement of a charge of `x`: the payment and both rewards are split without remainder, the
-- state is `Recorded`, and nothing is released.
pub record IsSnapshot (a : RecordMiningFromReceipt) (x : ℕ) (s : ReceiptSettlement) : Type 0 where
  pub total : s.usdc_total_paid ≡ x
  pub payment : s.usdc_to_provider + s.usdc_to_treasury ≡ x
  pub treasury : s.usdc_to_treasury ≡ x * a.config.value.treasury_usdc_share_bps / bps_scale
  pub reward :
      s.claw_to_user + s.claw_to_provider_total
      ≡ x * a.config.value.exchange_rate_claw_per_usdc_e6 / rate_scale
  pub user :
      s.claw_to_user
      ≡ (s.claw_to_user + s.claw_to_provider_total) * a.config.value.user_claw_share_bps / bps_scale
  pub offset : s.claw_provider_debt_offset + s.claw_to_provider_locked ≡ s.claw_to_provider_total
  pub status : s.status ≡ settlement_status_code ReceiptSettlementStatus.recorded
  pub payer_user : s.payer_user ≡ a.payer_user
  pub provider_wallet : s.provider_wallet ≡ a.provider_account.value.provider_wallet
  pub receipt : s.attestation_receipt ≡ a.attestation_receipt
  pub lock_days : s.lock_days_snapshot ≡ a.config.value.lock_days
  pub lock_start : s.reward_lock_started_at ≡ pos 0
  pub user_released : s.user_claw_released ≡ 0
  pub provider_released : s.provider_claw_released ≡ 0

module _ (r : Runtime) (a a' : RecordMiningFromReceipt) (x : ℕ) (l l' : Ledger) where
  snapshot :
      (s : ReceiptSettlement)
      → record_mining_from_receipt r a x l ≡ ok (a', l')
      → a'.receipt_settlement.value ≡ some s
      → IsSnapshot a x s
  unfolding record_mining_from_receipt checked_sub_u64 calculate_claw_amount calculate_bps_amount
  snapshot s h e = ground arith

  creates : record_mining_from_receipt r a x l ≡ ok (a', l') → a'.receipt_settlement.value ≢ none
  unfolding record_mining_from_receipt
  creates h e = ground arith

-- A receipt that is recorded leaves a settlement, and it is the snapshot of the charge: the treasury's
-- and the provider's USDC add up to the charge, the user's and the provider's CLAW to the reward at the
-- configured rate, and the provider's debt offset and locked reward to the provider's CLAW. The shares
-- are the configured parts, rounded down; the state is `Recorded`, and nothing is released.
pub record_mining-IsSnapshot :
    (r : Runtime) (a a' : RecordMiningFromReceipt) (x : ℕ) (l l' : Ledger)
    → record_mining_from_receipt r a x l ≡ ok (a', l')
    → (s : ReceiptSettlement) × (a'.receipt_settlement.value ≡ some s) × IsSnapshot a x s
record_mining-IsSnapshot r a a' x l l' h = elim (Option-cases a'.receipt_settlement.value) [
  | inl e ↦ absurd (creates r a a' x l l' h e)
  | inr (s, e) ↦ (s, e, snapshot r a a' x l l' s h e)
]

-- What recording does to the provider's account and to its reward account.
pub record IsBooked (a a' : RecordMiningFromReceipt) (s : ReceiptSettlement) : Type 0 where
  pub net_position :
      a'.provider_account.value.claw_net_position
      ≡ a.provider_account.value.claw_net_position +ℤ pos s.claw_to_provider_total
  pub pending_usdc :
      a'.provider_account.value.pending_provider_usdc
      ≡ a.provider_account.value.pending_provider_usdc + s.usdc_to_provider
  pub receipts :
      a'.provider_account.value.unsettled_receipt_count
      ≡ a.provider_account.value.unsettled_receipt_count + 1
  pub challenges :
      a'.provider_account.value.unresolved_challenge_count
      ≡ a.provider_account.value.unresolved_challenge_count
  pub stake :
      a'.provider_account.value.staked_usdc_amount ≡ a.provider_account.value.staked_usdc_amount
  pub status : a'.provider_account.value.status ≡ a.provider_account.value.status

-- A receipt that is recorded adds the provider's whole CLAW to the provider's net position and its USDC
-- to the pending USDC, and counts one more unsettled receipt; challenges, stake and status stay.
pub record_mining-IsBooked :
    (r : Runtime) (a a' : RecordMiningFromReceipt) (x : ℕ) (l l' : Ledger) (s : ReceiptSettlement)
    → record_mining_from_receipt r a x l ≡ ok (a', l')
    → a'.receipt_settlement.value ≡ some s
    → IsBooked a a' s
unfolding record_mining_from_receipt checked_add_u64 checked_add_i128
record_mining-IsBooked r a a' x l l' s h e = ground arith

-- What the account of a user or a provider holds, before and after, when it is there already: `added`
-- more is pending, and locked, released and claimed CLAW and the owner stay.
pub record AddsPending (before after : RewardAccount) (added : ℕ) : Type 0 where
  pub pending : after.pending_claw_total ≡ before.pending_claw_total + added
  pub locked : after.locked_claw_total ≡ before.locked_claw_total
  pub released : after.released_claw_total ≡ before.released_claw_total
  pub claimed : after.claimed_claw_total ≡ before.claimed_claw_total
  pub owner : after.owner ≡ before.owner

-- A receipt that is recorded for an initialised user and provider adds the user's CLAW to the pending CLAW
-- of the user, and the provider's CLAW less its debt offset to that of the provider.
pub record_mining-AddsPending :
    (r : Runtime) (a a' : RecordMiningFromReceipt) (x : ℕ) (l l' : Ledger) (s : ReceiptSettlement)
    (u u' : RewardAccount)
    → record_mining_from_receipt r a x l ≡ ok (a', l')
    → a'.receipt_settlement.value ≡ some s
    → a.user_reward_account.value ≡ some u
    → u.initialized ≡ true
    → a.provider_reward_account.value.initialized ≡ true
    → a'.user_reward_account.value ≡ some u'
    → AddsPending u u' s.claw_to_user
      × AddsPending a.provider_reward_account.value a'.provider_reward_account.value
          s.claw_to_provider_locked
unfolding record_mining_from_receipt checked_add_u64 initialize_reward_account add_provider_pending
record_mining-AddsPending r a a' x l l' s u u' h e ea iu ip ea' = ground arith

-- A provider in debt is paid nothing before the debt is worked off: where a recorded receipt locks any
-- CLAW for a provider whose net position was negative, the position becomes exactly the locked CLAW;
-- and where it locks none, the position stays at or below zero.
pub record_mining-debt_first :
    (r : Runtime) (a a' : RecordMiningFromReceipt) (x : ℕ) (l l' : Ledger) (s : ReceiptSettlement)
    → record_mining_from_receipt r a x l ≡ ok (a', l')
    → a'.receipt_settlement.value ≡ some s
    → a.provider_account.value.claw_net_position <ℤ pos 0
    → ((0 < s.claw_to_provider_locked)
        × (a'.provider_account.value.claw_net_position ≡ pos s.claw_to_provider_locked))
      ⊎ ((s.claw_to_provider_locked ≡ 0) × (a'.provider_account.value.claw_net_position ≤ℤ pos 0))
unfolding record_mining_from_receipt checked_add_i128 checked_sub_u64 provider_debt_offset ◌+ℤ◌
record_mining-debt_first r a a' x l l' s h e neg = ground arith
