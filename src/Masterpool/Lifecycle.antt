-- ===== src/Masterpool/Lifecycle.antt =====
-- A receipt through several instructions of the masterpool: recorded, challenged, and then reverted or
-- settled, in programs/clawfarm-masterpool/src/instructions/receipt.rs and challenge.rs.
use clawfarm_masterpool.Prelude.{ℕ, ◌≡◌, ◌≢◌, true, some, ok, pos, ◌-ℤ◌, +ℤ_cancel, arith}
use clawfarm_masterpool.Runtime.{Ledger, Runtime}
use clawfarm_masterpool.Masterpool.Accounts.{RewardAccount}
use clawfarm_masterpool.Masterpool.Challenge.{
  ResolveChallengeEconomics, resolve_challenge_economics,
}
use clawfarm_masterpool.Masterpool.Challenge.Resolution.{
  upholds, resolve-IsReverted, resolve-IsResolved,
}
use clawfarm_masterpool.Masterpool.Receipt.{
  RecordMiningFromReceipt, record_mining_from_receipt, SettleFinalizedReceipt,
  settle_finalized_receipt,
}
use clawfarm_masterpool.Masterpool.Receipt.Charge.{
  record_mining-IsBooked, record_mining-AddsPending,
}
use clawfarm_masterpool.Masterpool.Receipt.Settlement.{settle-IsSettled}

-- The accounts that one instruction left are those that a later one is given.
pub record Hands (a : RecordMiningFromReceipt) (b : ResolveChallengeEconomics) : Type 0 where
  pub settlement : a.receipt_settlement.value ≡ some b.receipt_settlement.value
  pub user : a.user_reward_account.value ≡ some b.user_reward_account.value
  pub provider_reward : b.provider_reward_account.value ≡ a.provider_reward_account.value
  pub provider_pending :
      b.provider_account.value.pending_provider_usdc
      ≡ a.provider_account.value.pending_provider_usdc
  pub provider_receipts :
      b.provider_account.value.unsettled_receipt_count
      ≡ a.provider_account.value.unsettled_receipt_count
  pub provider_net :
      b.provider_account.value.claw_net_position ≡ a.provider_account.value.claw_net_position

-- A receipt that is recorded and then successfully challenged leaves no trace in the accounts of a user
-- and a provider that were there before, but for the slash: the user's and the provider's pending
-- CLAW, the provider's pending USDC and unsettled receipts are what they were before the
-- receipt, and the net position is the old one less the slash of the bond.
pub record-then-revert :
    (r r₂ : Runtime) (a a' : RecordMiningFromReceipt) (x : ℕ) (l l' : Ledger)
    (b b' : ResolveChallengeEconomics) (code : ℕ) (k k' : Ledger) (u : RewardAccount)
    → record_mining_from_receipt r a x l ≡ ok (a', l')
    → Hands a' b
    → resolve_challenge_economics r₂ b code k ≡ ok (b', k')
    → upholds code ≡ true
    → a.user_reward_account.value ≡ some u
    → u.initialized ≡ true
    → a.provider_reward_account.value.initialized ≡ true
    → (b'.user_reward_account.value.pending_claw_total ≡ u.pending_claw_total)
      × (b'.provider_reward_account.value.pending_claw_total
          ≡ a.provider_reward_account.value.pending_claw_total)
      × (b'.provider_account.value.pending_provider_usdc
          ≡ a.provider_account.value.pending_provider_usdc)
      × (b'.provider_account.value.unsettled_receipt_count
          ≡ a.provider_account.value.unsettled_receipt_count)
      × (b'.provider_account.value.claw_net_position
          ≡ a.provider_account.value.claw_net_position
            -ℤ pos b.challenge_bond_record.value.slash_claw_amount_snapshot)
record-then-revert r r₂ a a' x l l' b b' code k k' u h p h₂ c eu iu ip =
    let s = b.receipt_settlement.value in
    let booked = record_mining-IsBooked r a a' x l l' s h p.settlement in
    let added =
      record_mining-AddsPending r a a' x l l' s u b.user_reward_account.value h p.settlement eu iu
        ip p.user in
    let reverted = resolve-IsReverted r₂ b b' code k k' h₂ c in
    ground (
      arith,
      booked,
      added,
      reverted,
      +ℤ_cancel a.provider_account.value.claw_net_position (pos s.claw_to_provider_total),
    )

-- A receipt that is paid out is not refunded later: once it is settled no challenge of it is resolved, by
-- any code, whatever the other accounts, the time and the ledger.
pub settle_excludes_resolve :
    (r r₂ : Runtime) (a a' : SettleFinalizedReceipt) (status : ℕ) (l l' : Ledger)
    (b b' : ResolveChallengeEconomics) (code : ℕ) (k k' : Ledger)
    → settle_finalized_receipt r a status l ≡ ok (a', l')
    → b.receipt_settlement.value ≡ a'.receipt_settlement.value
    → resolve_challenge_economics r₂ b code k ≢ ok (b', k')
settle_excludes_resolve r r₂ a a' status l l' b b' code k k' p e q =
    let settled = settle-IsSettled r a a' status l l' p in
    let resolved = resolve-IsResolved r₂ b b' code k k' q in ground (arith, settled, resolved)

-- A receipt that is refunded is not paid out later: once a challenge of it is upheld it is not settled,
-- whatever the other accounts, the time and the ledger.
pub revert_excludes_settle :
    (r r₂ : Runtime) (a a' : SettleFinalizedReceipt) (status : ℕ) (l l' : Ledger)
    (b b' : ResolveChallengeEconomics) (code : ℕ) (k k' : Ledger)
    → resolve_challenge_economics r₂ b code k ≡ ok (b', k')
    → upholds code ≡ true
    → a.receipt_settlement.value ≡ b'.receipt_settlement.value
    → settle_finalized_receipt r a status l ≢ ok (a', l')
revert_excludes_settle r r₂ a a' status l l' b b' code k k' p c e q =
    let reverted = resolve-IsReverted r₂ b b' code k k' p c in
    let settled = settle-IsSettled r a a' status l l' q in ground (arith, settled, reverted)
