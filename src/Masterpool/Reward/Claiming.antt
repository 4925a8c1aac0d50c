-- ===== src/Masterpool/Reward/Claiming.antt =====
-- What a claim of released rewards does: laws of `claim_released_claw`.
use clawfarm_masterpool.Prelude.{◌+◌, ◌-◌, ◌<◌, ◌≡◌, false, ok, arith}
use clawfarm_masterpool.Runtime.{Pubkey, Ledger, Runtime, TokenLaws, balance, supply, at}
use clawfarm_masterpool.Masterpool.Error.{ErrorCode}
use clawfarm_masterpool.Masterpool.Utils.{fail, checked_add_u64, checked_sub_u64}
use clawfarm_masterpool.Masterpool.Reward.{ClaimReleasedClaw, claim_released_claw}

module _ (r : Runtime) (a a' : ClaimReleasedClaw) (l l' : Ledger) where
  -- A claim is the owner's, while claims are not paused, and of a positive amount; it leaves everything that
  -- was released claimed, and the other counters of the account as they were.
  pub claim-claims_all :
      claim_released_claw r a l ≡ ok (a', l')
      → (a.config.value.pause_claims ≡ false)
        × (a.reward_account.value.owner ≡ a.claimant.key)
        × (a.reward_account.value.claimed_claw_total < a.reward_account.value.released_claw_total)
        × (a'.reward_account.value.claimed_claw_total ≡ a.reward_account.value.released_claw_total)
        × (a'.reward_account.value.released_claw_total ≡ a.reward_account.value.released_claw_total)
        × (a'.reward_account.value.locked_claw_total ≡ a.reward_account.value.locked_claw_total)
        × (a'.reward_account.value.pending_claw_total ≡ a.reward_account.value.pending_claw_total)
  unfolding claim_released_claw checked_add_u64 checked_sub_u64
  claim-claims_all h = ground arith

  -- A claim pays exactly what was released and not yet claimed, from the reward vault to a token account
  -- that the claimant owns; no other balance changes, and no supply.
  pub claim-balances :
      (laws : TokenLaws r)
      → claim_released_claw r a l ≡ ok (a', l')
      → (a.claimant_claw_token.value.owner ≡ a.claimant.key)
        × ((k : Pubkey)
            → (balance l' k
                  + at k a.reward_vault.key (
                      a.reward_account.value.released_claw_total
                      - a.reward_account.value.claimed_claw_total)
                ≡ balance l k
                  + at k a.claimant_claw_token.key (
                      a.reward_account.value.released_claw_total
                      - a.reward_account.value.claimed_claw_total))
              × (supply l' k ≡ supply l k))
  unfolding claim_released_claw checked_sub_u64
  claim-balances laws h =
      let e : r.transfer_checked a.reward_vault.key a.claw_mint.key a.claimant_claw_token.key
            a.pool_authority
            (a.reward_account.value.released_claw_total - a.reward_account.value.claimed_claw_total)
            a.claw_mint.value.decimals l
          ≡ ok l' =
        ground arith in
      (
        ground arith,
        λ k.
            (laws.balance-transfer _ _ _ _ _ _ k l l' e, laws.supply-transfer _ _ _ _ _ _ k l l' e),
      )

  -- Nothing is claimed twice: a second claim on the account that a claim left, with no release between,
  -- by its owner and while claims are not paused, fails with `NoClaimableRewards`.
  pub claim_twice :
      (r₂ : Runtime) (b : ClaimReleasedClaw) (l₂ : Ledger)
      → claim_released_claw r a l ≡ ok (a', l')
      → b.reward_account.value ≡ a'.reward_account.value
      → b.claimant.key ≡ a.claimant.key
      → b.config.value.pause_claims ≡ false
      → claim_released_claw r₂ b l₂ ≡ fail ErrorCode.no_claimable_rewards
  unfolding claim_released_claw checked_add_u64 checked_sub_u64
  claim_twice r₂ b l₂ h e k p = ground arith
