-- ===== src/Masterpool/Challenge/Bonding.antt =====
-- What opening a challenge puts at stake: laws of `record_challenge_bond`.
use clawfarm_masterpool.Prelude.{
  ◌+◌, ◌*◌, ◌/◌, ◌≡◌, ◌≢◌, inl, inr, none, some, ok, arith, Option-cases,
}
use clawfarm_masterpool.Runtime.{Pubkey, Ledger, Runtime, TokenLaws, balance, supply, at}
use clawfarm_masterpool.Masterpool.Constants.{bps_scale}
use clawfarm_masterpool.Masterpool.Types.{
  ReceiptSettlementStatus, ChallengeBondStatus, settlement_status_code, bond_status_code,
}
use clawfarm_masterpool.Masterpool.Accounts.{ChallengeBondRecord}
use clawfarm_masterpool.Masterpool.Utils.{calculate_bps_amount, checked_add_u64, checked_sub_u64}
use clawfarm_masterpool.Masterpool.Challenge.{RecordChallengeBond, record_challenge_bond}

-- The bond record of a challenge, with the terms of the configuration at that time.
pub record IsPledge (a : RecordChallengeBond) (b : ChallengeBondRecord) : Type 0 where
  pub amount : b.bond_amount ≡ a.config.value.challenge_bond_claw_amount
  pub slash : b.slash_claw_amount_snapshot ≡ a.config.value.provider_slash_claw_amount
  pub split : b.challenger_reward_amount + b.burn_amount ≡ b.slash_claw_amount_snapshot
  pub reward :
      b.challenger_reward_amount
      ≡ b.slash_claw_amount_snapshot * a.config.value.challenger_reward_bps / bps_scale
  pub status : b.status ≡ bond_status_code ChallengeBondStatus.locked
  pub challenger : b.challenger ≡ a.challenger.key
  pub challenge : b.attestation_challenge ≡ a.attestation_challenge
  pub receipt : b.attestation_receipt ≡ a.attestation_receipt
  pub payer_user : b.payer_user ≡ a.receipt_settlement.value.payer_user
  pub provider_wallet : b.provider_wallet ≡ a.receipt_settlement.value.provider_wallet

module _ (r : Runtime) (a a' : RecordChallengeBond) (l l' : Ledger) where
  bond_terms :
      (b : ChallengeBondRecord)
      → record_challenge_bond r a l ≡ ok (a', l')
      → a'.challenge_bond_record.value ≡ some b
      → IsPledge a b
  unfolding record_challenge_bond checked_sub_u64 calculate_bps_amount
  bond_terms b h e = ground arith

  creates : record_challenge_bond r a l ≡ ok (a', l') → a'.challenge_bond_record.value ≢ none
  unfolding record_challenge_bond
  creates h e = ground arith

  -- A challenge that is recorded, which takes a settlement in the state `Recorded`, leaves a locked bond
  -- of the configured amount on that receipt, whose challenger reward and burn add up to the
  -- configured slash; the provider has one more unresolved challenge and is otherwise as before
  -- in its counters, and the settlement is untouched.
  pub record_bond-IsPledge :
      record_challenge_bond r a l ≡ ok (a', l')
      → ((b : ChallengeBondRecord) × (a'.challenge_bond_record.value ≡ some b) × IsPledge a b)
        × (a.receipt_settlement.value.status
            ≡ settlement_status_code ReceiptSettlementStatus.recorded)
        × (a'.receipt_settlement ≡ a.receipt_settlement)
        × (a'.provider_account.value.unresolved_challenge_count
            ≡ a.provider_account.value.unresolved_challenge_count + 1)
        × (a'.provider_account.value.unsettled_receipt_count
            ≡ a.provider_account.value.unsettled_receipt_count)
        × (a'.provider_account.value.pending_provider_usdc
            ≡ a.provider_account.value.pending_provider_usdc)
        × (a'.provider_account.value.claw_net_position ≡ a.provider_account.value.claw_net_position)
  unfolding record_challenge_bond checked_add_u64
  record_bond-IsPledge h = (
    elim (Option-cases a'.challenge_bond_record.value) [
      | inl e ↦ absurd (creates h e)
      | inr (b, e) ↦ (b, e, bond_terms b h e)
    ],
    ground arith,
    ground arith,
    ground arith,
    ground arith,
    ground arith,
    ground arith,
  )

  -- The bond, of the configured amount, goes from the challenger's token account, which the challenger
  -- owns, to the bond vault; no other balance changes, and no supply.
  pub record_bond-balances :
      (laws : TokenLaws r)
      → record_challenge_bond r a l ≡ ok (a', l')
      → (a.challenger_claw_token.value.owner ≡ a.challenger.key)
        × ((k : Pubkey)
            → (balance l' k
                  + at k a.challenger_claw_token.key a.config.value.challenge_bond_claw_amount
                ≡ balance l k
                  + at k a.challenge_bond_vault a.config.value.challenge_bond_claw_amount)
              × (supply l' k ≡ supply l k))
  unfolding record_challenge_bond
  record_bond-balances laws h =
      let e : r.transfer_checked a.challenger_claw_token.key a.claw_mint.key a.challenge_bond_vault
            a.challenger.key a.config.value.challenge_bond_claw_amount a.claw_mint.value.decimals l
          ≡ ok l' =
        ground arith in
      (
        ground arith,
        λ k.
            (laws.balance-transfer _ _ _ _ _ _ k l l' e, laws.supply-transfer _ _ _ _ _ _ k l l' e),
      )
