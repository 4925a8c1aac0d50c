-- ===== src/Examples/Lifecycles.antt =====
-- A receipt on the chain through several instructions.
use clawfarm_masterpool.Prelude.{◌≡◌, refl, ◌≢◌, ok, pos, negsuc, ◌+ℤ◌, ◌-ℤ◌}
use clawfarm_masterpool.Runtime.{balance}
use clawfarm_masterpool.Masterpool.Utils.{
  calculate_bps_amount, calculate_claw_amount, checked_add_u64, checked_sub_u64, checked_add_i128,
  initialize_reward_account,
}
use clawfarm_masterpool.Masterpool.Receipt.{
  record_mining_from_receipt, add_provider_pending, provider_debt_offset,
}
use clawfarm_masterpool.Masterpool.Challenge.{resolve_challenge_economics}
use clawfarm_masterpool.Masterpool.Lifecycle.{Hands, record-then-revert, settle_excludes_resolve}
use clawfarm_masterpool.Examples.Chain.{chain_at, moved, put}
use clawfarm_masterpool.Examples.Accounts.{mining, settling, resolving, ledger, reward_account}
use clawfarm_masterpool.Examples.Receipts.{recorded, record_runs, settled, settle_runs}
use clawfarm_masterpool.Examples.Challenges.{upheld, uphold_runs}

handed : Hands recorded.0 resolving
unfolding record_mining_from_receipt checked_add_u64 checked_sub_u64 checked_add_i128
    calculate_bps_amount calculate_claw_amount initialize_reward_account add_provider_pending
    provider_debt_offset moved balance put ◌+ℤ◌
handed = record {
  settlement = refl;
  user = refl;
  provider_reward = refl;
  provider_pending = refl;
  provider_receipts = refl;
  provider_net = refl;
}

record-then-revert_example :
    (upheld.0.user_reward_account.value.pending_claw_total ≡ 0)
    × (upheld.0.provider_reward_account.value.pending_claw_total ≡ 0)
    × (upheld.0.provider_account.value.pending_provider_usdc ≡ 0)
    × (upheld.0.provider_account.value.unsettled_receipt_count ≡ 0)
    × (upheld.0.provider_account.value.claw_net_position ≡ negsuc 499_999 -ℤ pos 30_000_000)
record-then-revert_example =
    record-then-revert (chain_at 1_000) (chain_at 1_500) mining recorded.0 1_000_000 ledger
      recorded.1 resolving upheld.0 1 ledger upheld.1 (reward_account 11 0 0 0) record_runs handed
      uphold_runs refl refl refl refl

settle_excludes_resolve_example :
    resolve_challenge_economics
      (chain_at 3_000)
      (record resolving { receipt_settlement = settled.0.receipt_settlement })
      1
      ledger
    ≢ ok upheld
settle_excludes_resolve_example =
    settle_excludes_resolve (chain_at 2_000) (chain_at 3_000) settling settled.0 2 ledger settled.1
      (record resolving { receipt_settlement = settled.0.receipt_settlement }) upheld.0 1 ledger
      upheld.1 settle_runs refl
