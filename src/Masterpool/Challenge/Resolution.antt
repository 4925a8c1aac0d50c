-- ===== src/Masterpool/Challenge/Resolution.antt =====
-- What the two outcomes of a challenge do to the accounts: laws of `resolve_challenge_economics`.
use clawfarm_masterpool.Prelude.{
  ℕ, ◌+◌, ◌≡◌, ◌≢◌, ◌⊎◌, inl, inr, Bool, true, ◌||◌, ok, pos, ◌-ℤ◌, ◌==◌, arith, Result-cases,
}
use clawfarm_masterpool.Runtime.{Ledger, Runtime}
use clawfarm_masterpool.Masterpool.Constants.{
  attestation_resolution_accepted, attestation_resolution_rejected,
  attestation_resolution_receipt_invalidated, attestation_resolution_signer_revoked,
}
use clawfarm_masterpool.Masterpool.Types.{
  ReceiptSettlementStatus, ChallengeBondStatus, settlement_status_code, bond_status_code,
}
use clawfarm_masterpool.Masterpool.Utils.{checked_sub_u64, checked_sub_i128}
use clawfarm_masterpool.Masterpool.Challenge.{
  ResolveChallengeEconomics, resolve_challenge_economics, burn_bond, revert_receipt,
  close_resolution,
}

-- The resolution codes that uphold a challenge.
abbrev pub upholds : ℕ → Bool
upholds code =
    code == attestation_resolution_accepted
    || code == attestation_resolution_receipt_invalidated
    || code == attestation_resolution_signer_revoked

-- What a rejected challenge did.
pub record IsRejected (r : Runtime) (a a' : ResolveChallengeEconomics) (l l' : Ledger)
    : Type 0 where
  pub bond : a'.challenge_bond_record.value.status ≡ bond_status_code ChallengeBondStatus.burned
  pub settlement :
      a'.receipt_settlement.value.status ≡ settlement_status_code ReceiptSettlementStatus.recorded
  pub unchanged :
      a'.receipt_settlement.value ≡ record a.receipt_settlement.value { updated_at = r.now }
  pub burn :
      r.burn a.claw_mint a.challenge_bond_vault.key a.pool_authority
        a.challenge_bond_record.value.bond_amount l
      ≡ ok l'
  pub user : a'.user_reward_account ≡ a.user_reward_account
  pub provider : a'.provider_reward_account ≡ a.provider_reward_account
  pub net_position :
      a'.provider_account.value.claw_net_position ≡ a.provider_account.value.claw_net_position
  pub pending_usdc :
      a'.provider_account.value.pending_provider_usdc
      ≡ a.provider_account.value.pending_provider_usdc
  pub receipts :
      a'.provider_account.value.unsettled_receipt_count
      ≡ a.provider_account.value.unsettled_receipt_count

-- What a challenge that was upheld did.
pub record IsReverted (a a' : ResolveChallengeEconomics) : Type 0 where
  pub bond : a'.challenge_bond_record.value.status ≡ bond_status_code ChallengeBondStatus.returned
  pub settlement :
      a'.receipt_settlement.value.status
      ≡ settlement_status_code ReceiptSettlementStatus.challenged_reverted
  pub user :
      a'.user_reward_account.value.pending_claw_total + a.receipt_settlement.value.claw_to_user
      ≡ a.user_reward_account.value.pending_claw_total
  pub user_locked :
      a'.user_reward_account.value.locked_claw_total ≡ a.user_reward_account.value.locked_claw_total
  pub provider :
      a'.provider_reward_account.value.pending_claw_total
        + a.receipt_settlement.value.claw_to_provider_locked
      ≡ a.provider_reward_account.value.pending_claw_total
  pub provider_locked :
      a'.provider_reward_account.value.locked_claw_total
      ≡ a.provider_reward_account.value.locked_claw_total
  pub net_position :
      a'.provider_account.value.claw_net_position
      ≡ a.provider_account.value.claw_net_position
        -ℤ pos a.receipt_settlement.value.claw_to_provider_total
        -ℤ pos a.challenge_bond_record.value.slash_claw_amount_snapshot
  pub pending_usdc :
      a'.provider_account.value.pending_provider_usdc + a.receipt_settlement.value.usdc_to_provider
      ≡ a.provider_account.value.pending_provider_usdc
  pub receipts :
      a'.provider_account.value.unsettled_receipt_count + 1
      ≡ a.provider_account.value.unsettled_receipt_count

-- What either outcome needs and does.
pub record IsResolved (a a' : ResolveChallengeEconomics) : Type 0 where
  pub recorded :
      a.receipt_settlement.value.status ≡ settlement_status_code ReceiptSettlementStatus.recorded
  pub locked : a.challenge_bond_record.value.status ≡ bond_status_code ChallengeBondStatus.locked
  pub receipt :
      a.challenge_bond_record.value.attestation_receipt
      ≡ a.receipt_settlement.value.attestation_receipt
  pub challenges :
      a'.provider_account.value.unresolved_challenge_count + 1
      ≡ a.provider_account.value.unresolved_challenge_count

module _ (r : Runtime) (a a' : ResolveChallengeEconomics) (l l' : Ledger) where
  revert_pending : revert_receipt r a l ≡ ok (a', l') → IsReverted a a'
  unfolding revert_receipt checked_sub_u64 checked_sub_i128
  revert_pending h = ground arith

module _ (r : Runtime) (a a' : ResolveChallengeEconomics) (code : ℕ) (l l' : Ledger) where
  -- An upheld challenge reverts the receipt and then closes the resolution.
  pub resolve_stages :
      resolve_challenge_economics r a code l ≡ ok (a', l')
      → upholds code ≡ true
      → (a₁ : ResolveChallengeEconomics) × (revert_receipt r a l ≡ ok (a₁, l'))
        × (close_resolution r a₁ ≡ ok a')
  unfolding resolve_challenge_economics
  resolve_stages h c = elim (Result-cases (revert_receipt r a l)) [
    | inl ((a₁, l₁), e) ↦ (a₁, ground arith, ground arith)
    | inr (f, e) ↦ absurd (ground arith)
  ]

  -- Either outcome takes a recorded settlement and a locked bond on the same receipt, and leaves the
  -- provider one unresolved challenge less.
  pub resolve-IsResolved : resolve_challenge_economics r a code l ≡ ok (a', l') → IsResolved a a'
  unfolding resolve_challenge_economics burn_bond revert_receipt checked_sub_u64
  resolve-IsResolved h = ground arith

  -- A challenge that is rejected leaves the ledger of the burn of the whole bond from the bond vault, and
  -- marks the bond `Burned`; the settlement, still recorded, changes in nothing but the time of its
  -- update, and both reward accounts and the provider's net position, pending USDC and unsettled
  -- receipts are as before.
  pub resolve-IsRejected :
      resolve_challenge_economics r a code l ≡ ok (a', l')
      → code ≡ attestation_resolution_rejected
      → IsRejected r a a' l l'
  unfolding resolve_challenge_economics burn_bond close_resolution
  resolve-IsRejected h c = ground arith

  -- A challenge that is upheld, by any of the three codes, marks the bond `Returned` and the receipt's
  -- settlement `ChallengedReverted`: the
  -- pending CLAW of the user and of the provider, the provider's pending USDC and one unsettled
  -- receipt are taken back, and the net position falls by the provider's whole CLAW of the
  -- receipt and by the slash of the bond; locked CLAW stays.
  pub resolve-IsReverted :
      resolve_challenge_economics r a code l ≡ ok (a', l') → upholds code ≡ true → IsReverted a a'
  unfolding close_resolution
  resolve-IsReverted h c =
      let (a₁, e, f) = resolve_stages h c in ground (arith, revert_pending r a a₁ l l' e)

  resolves_by_code :
      resolve_challenge_economics r a code l ≡ ok (a', l')
      → (code ≡ attestation_resolution_rejected) ⊎ (upholds code ≡ true)
  unfolding resolve_challenge_economics
  resolves_by_code h = ground arith

  -- No challenge is resolved twice: after a resolution every other one of the same bond record fails,
  -- whatever its code, accounts, time and ledger.
  pub resolve_once :
      (r₂ : Runtime) (b : ResolveChallengeEconomics) (code₂ : ℕ) (l₂ : Ledger)
      (done : ResolveChallengeEconomics × Ledger)
      → resolve_challenge_economics r a code l ≡ ok (a', l')
      → b.challenge_bond_record.value ≡ a'.challenge_bond_record.value
      → resolve_challenge_economics r₂ b code₂ l₂ ≢ ok done
  unfolding resolve_challenge_economics burn_bond revert_receipt
  resolve_once r₂ b code₂ l₂ done h e h₂ = ground arith
