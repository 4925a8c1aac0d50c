-- ===== src/Masterpool/Reward/Release.antt =====
-- `materialize_reward_release` of programs/clawfarm-masterpool/src/instructions/reward.rs.
use clawfarm_masterpool.Prelude.{ℕ, ok, ◌>>=◌, ◌>>◌, pos, ltb_ℤ, ltb, leb, ◌==◌}
use clawfarm_masterpool.Runtime.{
  Outcome, Pubkey, AccountInfo, Account, Runtime, Seeds, signer, seeds_at,
}
use clawfarm_masterpool.Masterpool.Error.{ErrorCode}
use clawfarm_masterpool.Masterpool.Types.{
  RewardAccountKind, ReceiptSettlementStatus, ReleaseTarget, settlement_status_code,
  reward_kind_code, release_target_of,
}
use clawfarm_masterpool.Masterpool.Accounts.{GlobalConfig, RewardAccount, ReceiptSettlement}
use clawfarm_masterpool.Masterpool.Utils.{
  require, checked_add_u64, checked_sub_u64, compute_linear_releasable_amount,
}

pub record MaterializeRewardRelease : Type 0 where
  pub config : Account GlobalConfig
  pub admin_authority : AccountInfo
  pub reward_account : Account RewardAccount
  pub receipt_settlement : Account ReceiptSettlement

-- The constraints of the struct, in the order of its fields.
unfoldable pub check_materialize_reward_release :
    Runtime → MaterializeRewardRelease → Outcome (Unit {0})
check_materialize_reward_release r a = do
  seeds_at r r.masterpool_id Seeds.config a.config.key
  require (a.config.value.admin_authority == a.admin_authority.key) ErrorCode.unauthorized_admin
  signer a.admin_authority

-- The part of a settlement that belongs to a target.
pub record Entitlement : Type 0 where
  pub owner : Pubkey
  pub kind : RewardAccountKind
  pub total_locked : ℕ
  pub released_so_far : ℕ

unfoldable pub entitlement : ReleaseTarget → ReceiptSettlement → Entitlement
entitlement ReleaseTarget.user s = record {
  owner = s.payer_user;
  kind = RewardAccountKind.user;
  total_locked = s.claw_to_user;
  released_so_far = s.user_claw_released;
}
entitlement ReleaseTarget.provider s = record {
  owner = s.provider_wallet;
  kind = RewardAccountKind.provider;
  total_locked = s.claw_to_provider_locked;
  released_so_far = s.provider_claw_released;
}

unfoldable pub add_released : ReleaseTarget → ℕ → ReceiptSettlement → Outcome ReceiptSettlement
add_released ReleaseTarget.user amount s = do
  released ← checked_add_u64 s.user_claw_released amount
  ok (record s { user_claw_released = released })
add_released ReleaseTarget.provider amount s = do
  released ← checked_add_u64 s.provider_claw_released amount
  ok (record s { provider_claw_released = released })

unfoldable pub materialize_reward_release :
    Runtime → MaterializeRewardRelease → ℕ → ℕ → Outcome MaterializeRewardRelease
unfolding release_target_of
materialize_reward_release r a target amount = do
  require (ltb 0 amount) ErrorCode.invalid_positive_amount
  target' ← release_target_of target
  let settlement = a.receipt_settlement.value
  require (settlement.status == settlement_status_code ReceiptSettlementStatus.finalized_settled)
      ErrorCode.invalid_receipt_settlement_state
  require (ltb_ℤ (pos 0) settlement.reward_lock_started_at) ErrorCode.reward_lock_not_started
  let share = entitlement target' settlement
  releasable ←
      compute_linear_releasable_amount share.total_locked share.released_so_far
        settlement.reward_lock_started_at r.now settlement.lock_days_snapshot
  require (leb amount releasable) ErrorCode.reward_release_exceeds_vested
  let account = a.reward_account.value
  require (account.owner == share.owner) ErrorCode.invalid_reward_account_owner
  require (account.reward_kind == reward_kind_code share.kind) ErrorCode.invalid_reward_account_kind
  require (leb amount account.locked_claw_total) ErrorCode.reward_release_exceeds_locked
  locked ← checked_sub_u64 account.locked_claw_total amount
  released ← checked_add_u64 account.released_claw_total amount
  settlement' ← add_released target' amount settlement
  ok (record a {
    reward_account = record a.reward_account {
      value = record account {
        locked_claw_total = locked;
        released_claw_total = released;
        updated_at = r.now;
      };
    };
    receipt_settlement = record a.receipt_settlement {
      value = record settlement' { updated_at = r.now };
    };
  })
