-- ===== src/Examples/Rewards.antt =====
-- A locked reward on the chain: vested, released and claimed.
use Prim.Native.Nat.{min}
use clawfarm_masterpool.Prelude.{
  ℕ, ◌+◌, ◌-◌, ◌*◌, ◌/◌, ◌≤◌, ◌<◌, ◌≡◌, refl, false, ok, pos, ◌+ℤ◌, ◌-ℤ◌, arith,
}
use clawfarm_masterpool.Runtime.{Pubkey, Ledger, balance, supply, at}
use clawfarm_masterpool.Masterpool.Error.{ErrorCode}
use clawfarm_masterpool.Masterpool.Types.{ReleaseTarget, release_target_of}
use clawfarm_masterpool.Masterpool.Utils.{
  fail, checked_add_u64, checked_sub_u64, compute_linear_releasable_amount, saturate_i64,
  saturating_sub_i64, clamp_elapsed,
}
use clawfarm_masterpool.Masterpool.Reward.{
  MaterializeRewardRelease, materialize_reward_release, entitlement, add_released,
  ClaimReleasedClaw, claim_released_claw,
}
use clawfarm_masterpool.Masterpool.Reward.Releasing.{
  IsReleased, IsWithin, materialize-IsReleased, materialize-IsWithin,
}
use clawfarm_masterpool.Masterpool.Reward.Claiming.{claim-claims_all, claim-balances, claim_twice}
use clawfarm_masterpool.Masterpool.Utils.Vesting.{releasable_mono, releasable_since}
use clawfarm_masterpool.Examples.Chain.{derived, chain_at, left, moved, put, chain-TokenLaws}
use clawfarm_masterpool.Examples.Accounts.{
  ledger, settlement, reward_account, config, signing, token, mint_of,
}

-- Half of the 180 days have passed.
abbrev half : ℕ
half = 2_000 + 90 * 86_400

abbrev releasing : MaterializeRewardRelease
releasing = record {
  config = config;
  admin_authority = signing 10;
  reward_account = record { key = derived; value = reward_account 11 0 0 300_000 };
  receipt_settlement = record {
    key = derived;
    value = record settlement { status = 1; reward_lock_started_at = pos 2_000 };
  };
}

abbrev released : MaterializeRewardRelease
released = left (materialize_reward_release (chain_at half) releasing 0 100_000) releasing

release_runs : materialize_reward_release (chain_at half) releasing 0 100_000 ≡ ok released
unfolding materialize_reward_release release_target_of entitlement add_released checked_add_u64
    checked_sub_u64 compute_linear_releasable_amount saturating_sub_i64 saturate_i64 clamp_elapsed
    ◌-ℤ◌
release_runs = refl

materialize-IsReleased_example : IsReleased ReleaseTarget.user 100_000 releasing released
materialize-IsReleased_example =
    materialize-IsReleased (chain_at half) releasing released 100_000 ReleaseTarget.user
      release_runs

materialize-IsWithin_example : IsWithin released.receipt_settlement.value
materialize-IsWithin_example =
    materialize-IsWithin (chain_at half) releasing released 100_000 0
      (record { user = ground arith; provider = ground arith }) release_runs

-- Of 300000 half has vested, but for the 100000 released before.
test_vesting :
    compute_linear_releasable_amount 300_000 100_000 (pos 2_000) (pos half) 180 ≡ ok 50_000
unfolding compute_linear_releasable_amount checked_sub_u64 saturating_sub_i64 saturate_i64
    clamp_elapsed ◌-ℤ◌
test_vesting = refl

test_vested_all :
    compute_linear_releasable_amount 300_000 100_000 (pos 2_000) (pos (half + half)) 180
    ≡ ok 200_000
unfolding compute_linear_releasable_amount checked_sub_u64 saturating_sub_i64 saturate_i64
    clamp_elapsed ◌-ℤ◌
test_vested_all = refl

releasable_mono_example : 50_000 ≤ 200_000
releasable_mono_example =
    releasable_mono 300_000 100_000 (pos 2_000) (pos half) (pos (half + half)) 180 50_000 200_000
      (ground arith) test_vesting test_vested_all

releasable_since_example :
    compute_linear_releasable_amount 300_000 100_000 (pos 2_000) (pos 2_000 +ℤ pos 86_400) 180
    ≡ checked_sub_u64 (300_000 * min 86_400 (180 * 86_400) / (180 * 86_400)) 100_000
releasable_since_example =
    releasable_since 300_000 100_000 (pos 2_000) 86_400 180 (ground arith) (ground arith)
      (ground arith)

abbrev claiming : ClaimReleasedClaw
claiming = record {
  config = config;
  reward_account = record {
    key = derived;
    value = record (reward_account 11 0 0 200_000) {
      released_claw_total = 100_000;
      claimed_claw_total = 40_000;
    };
  };
  claimant = signing 11;
  reward_vault = token 31 21 derived;
  claimant_claw_token = token 44 21 11;
  claw_mint = mint_of 21;
  pool_authority = derived;
}

abbrev claimed : ClaimReleasedClaw × Ledger
claimed = left (claim_released_claw (chain_at half) claiming ledger) (claiming, ledger)

claim_runs : claim_released_claw (chain_at half) claiming ledger ≡ ok claimed
unfolding claim_released_claw checked_add_u64 checked_sub_u64 moved balance put
claim_runs = refl

claim-claims_all_example :
    (config.value.pause_claims ≡ false)
    × (claiming.reward_account.value.owner ≡ claiming.claimant.key)
    × (40_000 < 100_000)
    × (claimed.0.reward_account.value.claimed_claw_total ≡ 100_000)
    × (claimed.0.reward_account.value.released_claw_total ≡ 100_000)
    × (claimed.0.reward_account.value.locked_claw_total ≡ 200_000)
    × (claimed.0.reward_account.value.pending_claw_total ≡ 0)
claim-claims_all_example =
    claim-claims_all (chain_at half) claiming claimed.0 ledger claimed.1 claim_runs

claim-balances_example :
    (claiming.claimant_claw_token.value.owner ≡ claiming.claimant.key)
    × ((k : Pubkey)
        → (balance claimed.1 k + at k 31 (100_000 - 40_000)
            ≡ balance ledger k + at k 44 (100_000 - 40_000))
          × (supply claimed.1 k ≡ supply ledger k))
claim-balances_example =
    claim-balances (chain_at half) claiming claimed.0 ledger claimed.1 (chain-TokenLaws half)
      claim_runs

claim_twice_example :
    claim_released_claw (chain_at 90_000_000) claimed.0 ledger ≡ fail ErrorCode.no_claimable_rewards
unfolding claim_released_claw checked_add_u64 checked_sub_u64 moved balance put
claim_twice_example =
    claim_twice (chain_at half) claiming claimed.0 ledger claimed.1 (chain_at 90_000_000) claimed.0
      ledger claim_runs refl refl refl
