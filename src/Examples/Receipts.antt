-- ===== src/Examples/Receipts.antt =====
-- A receipt on the chain: recorded and settled.
use clawfarm_masterpool.Prelude.{
  ◌+◌, ◌<◌, ◌≡◌, refl, ◌⊎◌, true, false, some, ok, pos, ◌+ℤ◌, ◌≤ℤ◌, arith,
}
use clawfarm_masterpool.Runtime.{Ledger, balance, supply, at}
use clawfarm_masterpool.Masterpool.Accounts.{ReceiptSettlement}
use clawfarm_masterpool.Masterpool.Utils.{
  calculate_bps_amount, calculate_claw_amount, checked_add_u64, checked_sub_u64, checked_add_i128,
  require_attestation_caller, initialize_reward_account,
}
use clawfarm_masterpool.Masterpool.Receipt.{
  RecordMiningFromReceipt, SettleFinalizedReceipt, record_mining_from_receipt,
  settle_finalized_receipt, add_provider_pending, provider_debt_offset, lock_pending,
}
use clawfarm_masterpool.Masterpool.Receipt.Charge.{
  IsSnapshot, IsBooked, AddsPending, record_mining-IsSnapshot, record_mining-IsBooked,
  record_mining-AddsPending, record_mining-debt_first,
}
use clawfarm_masterpool.Masterpool.Receipt.Payment.{record_mining-balances, settle-balances}
use clawfarm_masterpool.Masterpool.Receipt.Progress.{record_mining_succeeds}
use clawfarm_masterpool.Masterpool.Receipt.Settlement.{IsSettled, settle-IsSettled, settle_succeeds}
use clawfarm_masterpool.Masterpool.Config.Governance.{params_of}
use clawfarm_masterpool.Examples.Chain.{chain_at, left, moved, put, chain-TokenLaws}
use clawfarm_masterpool.Examples.Accounts.{mining, settling, ledger, settlement, reward_account}

abbrev pub recorded : RecordMiningFromReceipt × Ledger
recorded =
    left (record_mining_from_receipt (chain_at 1_000) mining 1_000_000 ledger) (mining, ledger)

pub record_runs : record_mining_from_receipt (chain_at 1_000) mining 1_000_000 ledger ≡ ok recorded
unfolding record_mining_from_receipt checked_add_u64 checked_sub_u64 checked_add_i128
    calculate_bps_amount calculate_claw_amount initialize_reward_account add_provider_pending
    provider_debt_offset moved balance put ◌+ℤ◌
record_runs = refl

pub record_leaves : recorded.0.receipt_settlement.value ≡ some settlement
unfolding record_mining_from_receipt checked_add_u64 checked_sub_u64 checked_add_i128
    calculate_bps_amount calculate_claw_amount initialize_reward_account add_provider_pending
    provider_debt_offset moved balance put ◌+ℤ◌
record_leaves = refl

record_mining-IsSnapshot_example :
    (s : ReceiptSettlement) × (recorded.0.receipt_settlement.value ≡ some s)
    × IsSnapshot mining 1_000_000 s
record_mining-IsSnapshot_example =
    record_mining-IsSnapshot (chain_at 1_000) mining recorded.0 1_000_000 ledger recorded.1
      record_runs

record_mining-IsBooked_example : IsBooked mining recorded.0 settlement
record_mining-IsBooked_example =
    record_mining-IsBooked (chain_at 1_000) mining recorded.0 1_000_000 ledger recorded.1 settlement
      record_runs record_leaves

pub user_after : recorded.0.user_reward_account.value ≡ some (reward_account 11 0 300_000 0)
unfolding record_mining_from_receipt checked_add_u64 checked_sub_u64 checked_add_i128
    calculate_bps_amount calculate_claw_amount initialize_reward_account add_provider_pending
    provider_debt_offset moved balance put ◌+ℤ◌
user_after = refl

record_mining-AddsPending_example :
    AddsPending (reward_account 11 0 0 0) (reward_account 11 0 300_000 0) settlement.claw_to_user
    × AddsPending mining.provider_reward_account.value recorded.0.provider_reward_account.value
        settlement.claw_to_provider_locked
record_mining-AddsPending_example =
    record_mining-AddsPending (chain_at 1_000) mining recorded.0 1_000_000 ledger recorded.1
      settlement (reward_account 11 0 0 0) (reward_account 11 0 300_000 0) record_runs record_leaves
      refl refl refl user_after

record_mining-debt_first_example :
    ((0 < settlement.claw_to_provider_locked)
      × (recorded.0.provider_account.value.claw_net_position
          ≡ pos settlement.claw_to_provider_locked))
    ⊎ ((settlement.claw_to_provider_locked ≡ 0)
        × (recorded.0.provider_account.value.claw_net_position ≤ℤ pos 0))
record_mining-debt_first_example =
    record_mining-debt_first (chain_at 1_000) mining recorded.0 1_000_000 ledger recorded.1
      settlement record_runs record_leaves (ground arith)

record_mining-balances_example :
    (balance recorded.1 33 + at 33 41 1_000_000
      ≡ balance ledger 33
        + at 33 33 settlement.usdc_to_treasury
        + at 33 35 settlement.usdc_to_provider)
    × (supply recorded.1 33 ≡ supply ledger 33)
record_mining-balances_example =
    record_mining-balances (chain_at 1_000) (chain-TokenLaws 1_000) mining recorded.0 1_000_000
      ledger recorded.1 settlement record_runs record_leaves 33

abbrev first_transfer : Ledger
first_transfer = left (moved 41 33 300_000 ledger) ledger

abbrev second_transfer : Ledger
second_transfer = left (moved 41 35 700_000 first_transfer) ledger

record_mining_succeeds_example :
    (a' : RecordMiningFromReceipt) × (record_mining_from_receipt
        (chain_at 1_000)
        mining
        1_000_000
        ledger
      ≡ ok (a', second_transfer))
unfolding params_of require_attestation_caller initialize_reward_account moved balance put
record_mining_succeeds_example =
    record_mining_succeeds (chain_at 1_000) mining 1_000_000 ledger first_transfer second_transfer
      (reward_account 11 0 0 0) (reward_account 12 1 0 0)
      (record {
        rate = ground arith;
        stake = ground arith;
        lock = ground arith;
        slash = ground arith;
        bond = ground arith;
        usdc_split = refl;
        claw_split = refl;
        challenge_split = refl;
        reward = ground arith;
      })
      (record {
        caller = refl;
        running = refl;
        positive = ground arith;
        supported = ground arith;
        payer = refl;
        mint = refl;
        delegate = refl;
        allowance = ground arith;
        active = refl;
      })
      refl refl
      (record {
        user = ground arith;
        provider = ground arith;
        pending = ground arith;
        receipts = ground arith;
        net_low = refl;
        net_high = ground arith;
      })
      refl refl

abbrev pub settled : SettleFinalizedReceipt × Ledger
settled = left (settle_finalized_receipt (chain_at 2_000) settling 2 ledger) (settling, ledger)

pub settle_runs : settle_finalized_receipt (chain_at 2_000) settling 2 ledger ≡ ok settled
unfolding settle_finalized_receipt lock_pending checked_add_u64 checked_sub_u64 moved balance put
settle_runs = refl

settle-IsSettled_example :
    IsSettled (chain_at 2_000) settling settled.0 2 ledger settled.1
    × (settling.config.value.pause_finalization ≡ false)
    × (settling.attestation_config.owner ≡ settling.config.value.attestation_program)
    × (settling.attestation_config.is_signer ≡ true)
settle-IsSettled_example =
    settle-IsSettled (chain_at 2_000) settling settled.0 2 ledger settled.1 settle_runs

settle-balances_example :
    (balance settled.1 42 + at 42 35 700_000 ≡ balance ledger 42 + at 42 42 700_000)
    × (supply settled.1 42 ≡ supply ledger 42)
settle-balances_example =
    settle-balances (chain_at 2_000) (chain-TokenLaws 2_000) settling settled.0 2 ledger settled.1
      settle_runs 42

settle_succeeds_example :
    (a' : SettleFinalizedReceipt) × (settle_finalized_receipt (chain_at 2_000) settling 2 ledger
      ≡ ok (a', left (moved 35 42 700_000 ledger) ledger))
unfolding require_attestation_caller moved balance put
settle_succeeds_example =
    settle_succeeds (chain_at 2_000) settling ledger (left (moved 35 42 700_000 ledger) ledger) refl
      refl refl refl refl refl refl
      (record {
        user_pending = ground arith;
        user_room = ground arith;
        provider_pending = ground arith;
        provider_room = ground arith;
        pending_usdc = ground arith;
        receipts = ground arith;
      })
      refl
