-- ===== src/Masterpool/Reward/Releasing.antt =====
-- What a release of locked rewards does: laws of `materialize_reward_release`.
use clawfarm_masterpool.Prelude.{ℕ, ◌+◌, ◌≤◌, ◌<◌, ◌≡◌, inl, inr, ok, arith, Result-cases}
use clawfarm_masterpool.Runtime.{Outcome, Pubkey, Runtime}
use clawfarm_masterpool.Masterpool.Types.{
  ReceiptSettlementStatus, RewardAccountKind, ReleaseTarget, settlement_status_code,
  reward_kind_code, release_target_of,
}
use clawfarm_masterpool.Masterpool.Accounts.{ReceiptSettlement}
use clawfarm_masterpool.Masterpool.Utils.{
  checked_add_u64, checked_sub_u64, compute_linear_releasable_amount,
}
use clawfarm_masterpool.Masterpool.Reward.{
  MaterializeRewardRelease, materialize_reward_release, entitlement, add_released,
}
use clawfarm_masterpool.Masterpool.Utils.Vesting.{releasable-le}

-- Of neither target more is released than the settlement locked for it.
pub record IsWithin (s : ReceiptSettlement) : Type 0 where
  pub user : s.user_claw_released ≤ s.claw_to_user
  pub provider : s.provider_claw_released ≤ s.claw_to_provider_locked

abbrev releasable : Runtime → ℕ → ℕ → ReceiptSettlement → Outcome ℕ
releasable r total released s =
    compute_linear_releasable_amount total released s.reward_lock_started_at r.now
      s.lock_days_snapshot

-- The code of a target, whose it is, and what a settlement has for it: the payer's CLAW, and
-- the provider's locked CLAW.
abbrev pub code_of : ReleaseTarget → ℕ
code_of ReleaseTarget.user = 0
code_of ReleaseTarget.provider = 1

abbrev pub beneficiary : ReleaseTarget → ReceiptSettlement → Pubkey
beneficiary ReleaseTarget.user s = s.payer_user
beneficiary ReleaseTarget.provider s = s.provider_wallet

abbrev pub kind_of : ReleaseTarget → RewardAccountKind
kind_of ReleaseTarget.user = RewardAccountKind.user
kind_of ReleaseTarget.provider = RewardAccountKind.provider

abbrev pub locked_for : ReleaseTarget → ReceiptSettlement → ℕ
locked_for ReleaseTarget.user s = s.claw_to_user
locked_for ReleaseTarget.provider s = s.claw_to_provider_locked

abbrev pub released_for : ReleaseTarget → ReceiptSettlement → ℕ
released_for ReleaseTarget.user s = s.user_claw_released
released_for ReleaseTarget.provider s = s.provider_claw_released

abbrev pub other : ReleaseTarget → ReleaseTarget
other ReleaseTarget.user = ReleaseTarget.provider
other ReleaseTarget.provider = ReleaseTarget.user

-- A release of `amount` for a target.
pub record IsReleased (target : ReleaseTarget) (amount : ℕ) (a a' : MaterializeRewardRelease)
    : Type 0 where
  pub positive : 0 < amount
  pub state :
      a.receipt_settlement.value.status
      ≡ settlement_status_code ReceiptSettlementStatus.finalized_settled
  pub owner : a.reward_account.value.owner ≡ beneficiary target a.receipt_settlement.value
  pub kind : a.reward_account.value.reward_kind ≡ reward_kind_code (kind_of target)
  pub locked :
      a'.reward_account.value.locked_claw_total + amount ≡ a.reward_account.value.locked_claw_total
  pub released :
      a'.reward_account.value.released_claw_total
      ≡ a.reward_account.value.released_claw_total + amount
  pub claimed :
      a'.reward_account.value.claimed_claw_total ≡ a.reward_account.value.claimed_claw_total
  pub pending :
      a'.reward_account.value.pending_claw_total ≡ a.reward_account.value.pending_claw_total
  pub counted :
      released_for target a'.receipt_settlement.value
      ≡ released_for target a.receipt_settlement.value + amount
  pub untouched :
      released_for (other target) a'.receipt_settlement.value
      ≡ released_for (other target) a.receipt_settlement.value
  pub total :
      locked_for target a'.receipt_settlement.value ≡ locked_for target a.receipt_settlement.value
  pub bounded :
      released_for target a'.receipt_settlement.value ≤ locked_for target a.receipt_settlement.value

module _ (r : Runtime) (a a' : MaterializeRewardRelease) (amount : ℕ) where
  -- A release for the user, by code 0, or for the provider, by code 1, is of a positive amount and of a
  -- settled receipt. It moves the amount from locked to released in a reward account of the user's kind
  -- that the settlement's payer owns, or of the provider's kind that the settlement's provider wallet
  -- owns, and counts it for that one in the settlement and not for the other; the released sum stays
  -- within the user's CLAW, or the provider's locked CLAW, of the settlement.
  pub materialize-IsReleased :
      (target : ReleaseTarget)
      → materialize_reward_release r a (code_of target) amount ≡ ok a'
      → IsReleased target amount a a'
  unfolding materialize_reward_release release_target_of entitlement add_released checked_add_u64
      checked_sub_u64
  materialize-IsReleased ReleaseTarget.user h =
      let s = a.receipt_settlement.value in
      elim (Result-cases (releasable r s.claw_to_user s.user_claw_released s)) [
        | inl (n, f) ↦ ground (arith, releasable-le _ _ _ _ _ n f)
        | inr (c, f) ↦ absurd (ground arith)
      ]
  materialize-IsReleased ReleaseTarget.provider h =
      let s = a.receipt_settlement.value in
      elim (Result-cases (releasable r s.claw_to_provider_locked s.provider_claw_released s)) [
        | inl (n, f) ↦ ground (arith, releasable-le _ _ _ _ _ n f)
        | inr (c, f) ↦ absurd (ground arith)
      ]

  -- A release keeps both released sums of the settlement within what was locked.
  pub materialize-IsWithin :
      (code : ℕ)
      → IsWithin a.receipt_settlement.value
      → materialize_reward_release r a code amount ≡ ok a'
      → IsWithin a'.receipt_settlement.value
  unfolding materialize_reward_release entitlement add_released checked_add_u64
  materialize-IsWithin code v h =
      let s = a.receipt_settlement.value in
      let user = Result-cases (releasable r s.claw_to_user s.user_claw_released s) in
      let provider =
        Result-cases (releasable r s.claw_to_provider_locked s.provider_claw_released s) in
      elim user [
        | inl (n, f) ↦ elim provider [
          | inl (m, g) ↦ ground (arith, releasable-le _ _ _ _ _ n f, releasable-le _ _ _ _ _ m g)
          | inr (d, g) ↦ ground (arith, releasable-le _ _ _ _ _ n f)
        ]
        | inr (c, f) ↦ elim provider [
          | inl (m, g) ↦ ground (arith, releasable-le _ _ _ _ _ m g)
          | inr (d, g) ↦ absurd (ground arith)
        ]
      ]
