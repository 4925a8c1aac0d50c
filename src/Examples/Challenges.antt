-- ===== src/Examples/Challenges.antt =====
-- A challenge on the chain: opened, upheld and rejected.
use clawfarm_masterpool.Prelude.{◌+◌, ◌≡◌, refl, ◌≢◌, some, ok, pos, ◌+ℤ◌, ◌-ℤ◌}
use clawfarm_masterpool.Runtime.{Pubkey, Ledger, balance, supply, at}
use clawfarm_masterpool.Masterpool.Types.{ReceiptSettlementStatus, settlement_status_code}
use clawfarm_masterpool.Masterpool.Accounts.{ChallengeBondRecord}
use clawfarm_masterpool.Masterpool.Utils.{
  calculate_bps_amount, checked_add_u64, checked_sub_u64, checked_sub_i128,
}
use clawfarm_masterpool.Masterpool.Challenge.{
  RecordChallengeBond, record_challenge_bond, ResolveChallengeEconomics,
  resolve_challenge_economics, revert_receipt, pay_out_challenge, burn_bond, close_resolution,
  apply_resolution,
}
use clawfarm_masterpool.Masterpool.Challenge.Bonding.{IsPledge, record_bond-IsPledge}
use clawfarm_masterpool.Masterpool.Challenge.Resolution.{
  IsReverted, IsRejected, resolve-IsReverted, resolve-IsRejected, resolve_once,
}
use clawfarm_masterpool.Masterpool.Challenge.Payout.{
  resolve-reverted_balances, resolve-rejected_balances,
}
use clawfarm_masterpool.Examples.Chain.{
  chain_at, left, moved, burned, put, put_supply, chain-TokenLaws,
}
use clawfarm_masterpool.Examples.Accounts.{
  bonding, resolving, ledger, settlement, bond, token, config,
}

abbrev bonded : RecordChallengeBond × Ledger
bonded = left (record_challenge_bond (chain_at 1_000) bonding ledger) (bonding, ledger)

bond_runs : record_challenge_bond (chain_at 1_000) bonding ledger ≡ ok bonded
unfolding record_challenge_bond checked_add_u64 checked_sub_u64 calculate_bps_amount moved balance
    put
bond_runs = refl

bond_leaves : bonded.0.challenge_bond_record.value ≡ some bond
unfolding record_challenge_bond checked_add_u64 checked_sub_u64 calculate_bps_amount moved balance
    put
bond_leaves = refl

record_bond-IsPledge_example :
    ((b : ChallengeBondRecord) × (bonded.0.challenge_bond_record.value ≡ some b)
      × IsPledge bonding b)
    × (settlement.status ≡ settlement_status_code ReceiptSettlementStatus.recorded)
    × (bonded.0.receipt_settlement ≡ bonding.receipt_settlement)
    × (bonded.0.provider_account.value.unresolved_challenge_count ≡ 0 + 1)
    × (bonded.0.provider_account.value.unsettled_receipt_count ≡ 1)
    × (bonded.0.provider_account.value.pending_provider_usdc ≡ 700_000)
    × (bonded.0.provider_account.value.claw_net_position ≡ pos 200_000)
record_bond-IsPledge_example =
    record_bond-IsPledge (chain_at 1_000) bonding bonded.0 ledger bonded.1 bond_runs

abbrev pub upheld : ResolveChallengeEconomics × Ledger
upheld = left (resolve_challenge_economics (chain_at 1_500) resolving 1 ledger) (resolving, ledger)

pub uphold_runs : resolve_challenge_economics (chain_at 1_500) resolving 1 ledger ≡ ok upheld
unfolding resolve_challenge_economics revert_receipt pay_out_challenge burn_bond close_resolution
    apply_resolution checked_sub_u64 checked_sub_i128 moved burned balance supply put put_supply
    ◌-ℤ◌ ◌+ℤ◌
uphold_runs = refl

abbrev rejected : ResolveChallengeEconomics × Ledger
rejected =
    left (resolve_challenge_economics (chain_at 1_500) resolving 2 ledger) (resolving, ledger)

reject_runs : resolve_challenge_economics (chain_at 1_500) resolving 2 ledger ≡ ok rejected
unfolding resolve_challenge_economics revert_receipt pay_out_challenge burn_bond close_resolution
    apply_resolution checked_sub_u64 checked_sub_i128 moved burned balance supply put put_supply
    ◌-ℤ◌ ◌+ℤ◌
reject_runs = refl

resolve-IsReverted_example : IsReverted resolving upheld.0
resolve-IsReverted_example =
    resolve-IsReverted (chain_at 1_500) resolving upheld.0 1 ledger upheld.1 uphold_runs refl

resolve-IsRejected_example : IsRejected (chain_at 1_500) resolving rejected.0 ledger rejected.1
resolve-IsRejected_example =
    resolve-IsRejected (chain_at 1_500) resolving rejected.0 2 ledger rejected.1 reject_runs refl

resolve_once_example : resolve_challenge_economics (chain_at 1_600) upheld.0 2 ledger ≢ ok rejected
resolve_once_example =
    resolve_once (chain_at 1_500) resolving upheld.0 1 ledger upheld.1 (chain_at 1_600) upheld.0 2
      ledger rejected uphold_runs refl

resolve-reverted_balances_example :
    ((k : Pubkey)
      → (balance upheld.1 k
            + at k 32 2_000_000
            + at k 31 21_000_000
            + at k 31 9_000_000
            + at k 35 700_000
          ≡ balance ledger k + at k 43 2_000_000 + at k 43 21_000_000 + at k 41 700_000)
        × (supply upheld.1 k + at k 21 9_000_000 ≡ supply ledger k))
    × ((token 41 22 11).value.owner ≡ settlement.payer_user)
    × ((token 41 22 11).value.mint ≡ config.value.usdc_mint)
    × ((token 43 21 14).value.owner ≡ bond.challenger)
    × ((token 43 21 14).value.mint ≡ config.value.claw_mint)
resolve-reverted_balances_example =
    resolve-reverted_balances (chain_at 1_500) (chain-TokenLaws 1_500) resolving upheld.0 1 ledger
      upheld.1 (token 41 22 11).value (token 43 21 14).value uphold_runs refl refl refl

resolve-rejected_balances_example :
    (balance rejected.1 32 + at 32 32 2_000_000 ≡ balance ledger 32)
    × (supply rejected.1 32 + at 32 21 2_000_000 ≡ supply ledger 32)
resolve-rejected_balances_example =
    resolve-rejected_balances (chain_at 1_500) (chain-TokenLaws 1_500) resolving rejected.0 2 ledger
      rejected.1 reject_runs refl 32
