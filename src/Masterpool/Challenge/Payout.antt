-- ===== src/Masterpool/Challenge/Payout.antt =====
-- Where the tokens of a resolved challenge go.
use clawfarm_masterpool.Prelude.{ℕ, ◌+◌, ◌≡◌, true, some, ok, ltb, if◌then◌else◌, arith, >>=-eq-ok}
use clawfarm_masterpool.Runtime.{
  Pubkey, TokenAccount, Ledger, Runtime, TokenLaws, balance, supply, at,
}
use clawfarm_masterpool.Masterpool.Constants.{
  attestation_resolution_rejected, claw_decimals, usdc_decimals,
}
use clawfarm_masterpool.Runtime.Optional.{optional_transfer, optional_burn}
use clawfarm_masterpool.Masterpool.Challenge.{
  ResolveChallengeEconomics, resolve_challenge_economics, burn_bond, revert_receipt,
  pay_out_challenge,
}
use clawfarm_masterpool.Masterpool.Challenge.Resolution.{upholds, resolve_stages}

module _ (r : Runtime) (laws : TokenLaws r) (a : ResolveChallengeEconomics) where
  -- The four calls in turn, with the ledgers between them.
  payout_calls :
      (l l' : Ledger)
      → pay_out_challenge r a l ≡ ok l'
      → (l₁ l₂ l₃ : Ledger) × (r.transfer_checked a.challenge_bond_vault.key a.claw_mint
            a.challenger_claw_token.key a.pool_authority a.challenge_bond_record.value.bond_amount
            claw_decimals l
          ≡ ok l₁)
        × ((if ltb 0 a.challenge_bond_record.value.challenger_reward_amount
              then r.transfer_checked a.reward_vault a.claw_mint a.challenger_claw_token.key
                  a.pool_authority a.challenge_bond_record.value.challenger_reward_amount
                  claw_decimals l₁
              else ok l₁)
            ≡ ok l₂)
        × ((if ltb 0 a.challenge_bond_record.value.burn_amount
              then r.burn a.claw_mint a.reward_vault a.pool_authority
                  a.challenge_bond_record.value.burn_amount l₂
              else ok l₂)
            ≡ ok l₃)
        × (r.transfer_checked a.provider_pending_usdc_vault a.usdc_mint a.payer_usdc_token.key
              a.pool_authority a.receipt_settlement.value.usdc_to_provider usdc_decimals l₃
            ≡ ok l')
  unfolding pay_out_challenge
  payout_calls l l' h =
      let (l₁, e₁, h₁) = >>=-eq-ok _ _ h in
      let (l₂, e₂, h₂) = >>=-eq-ok _ _ h₁ in
      let (l₃, e₃, h₃) = >>=-eq-ok _ _ h₂ in (l₁, l₂, l₃, e₁, e₂, e₃, h₃)

  payout-balances :
      (l l' : Ledger) (k : Pubkey)
      → pay_out_challenge r a l ≡ ok l'
      → (balance l' k
            + at k a.challenge_bond_vault.key a.challenge_bond_record.value.bond_amount
            + at k a.reward_vault a.challenge_bond_record.value.challenger_reward_amount
            + at k a.reward_vault a.challenge_bond_record.value.burn_amount
            + at k a.provider_pending_usdc_vault a.receipt_settlement.value.usdc_to_provider
          ≡ balance l k
            + at k a.challenger_claw_token.key a.challenge_bond_record.value.bond_amount
            + at k a.challenger_claw_token.key
                a.challenge_bond_record.value.challenger_reward_amount
            + at k a.payer_usdc_token.key a.receipt_settlement.value.usdc_to_provider)
        × (supply l' k + at k a.claw_mint a.challenge_bond_record.value.burn_amount ≡ supply l k)
  payout-balances l l' k h =
      let (l₁, l₂, l₃, e₁, e₂, e₃, e₄) = payout_calls l l' h in
      omega (
        arith,
        laws.balance-transfer _ _ _ _ _ _ k l l₁ e₁,
        optional_transfer r laws _ _ _ _ _ _ k l₁ l₂ e₂,
        optional_burn r laws _ _ _ _ k l₂ l₃ e₃,
        laws.balance-transfer _ _ _ _ _ _ k l₃ l' e₄,
        laws.supply-transfer _ _ _ _ _ _ k l l₁ e₁,
        laws.supply-transfer _ _ _ _ _ _ k l₃ l' e₄,
      )

module _ (r : Runtime) (a a' : ResolveChallengeEconomics) (l l' : Ledger) where
  revert_pays : revert_receipt r a l ≡ ok (a', l') → pay_out_challenge r a l ≡ ok l'
  unfolding revert_receipt
  revert_pays h = ground arith

  revert_owners :
      (t u : TokenAccount)
      → revert_receipt r a l ≡ ok (a', l')
      → a.payer_usdc_token.value ≡ some t
      → a.challenger_claw_token.value ≡ some u
      → (t.owner ≡ a.receipt_settlement.value.payer_user)
        × (t.mint ≡ a.config.value.usdc_mint)
        × (u.owner ≡ a.challenge_bond_record.value.challenger)
        × (u.mint ≡ a.config.value.claw_mint)
  unfolding revert_receipt
  revert_owners t u h et eu = ground arith

module _ (r : Runtime) (laws : TokenLaws r) (a a' : ResolveChallengeEconomics) (code : ℕ)
    (l l' : Ledger) where
  -- A challenge that is upheld pays the challenger the bond from the bond vault and the challenger reward
  -- from the reward vault, burns the rest of the slash from the reward vault and from the supply of
  -- CLAW, and refunds the provider's USDC of the receipt from the pending vault to the payer's
  -- token account; no other balance and no other supply changes. The two token accounts paid
  -- belong to the payer and to the challenger, and hold USDC and CLAW.
  pub resolve-reverted_balances :
      (t u : TokenAccount)
      → resolve_challenge_economics r a code l ≡ ok (a', l')
      → upholds code ≡ true
      → a.payer_usdc_token.value ≡ some t
      → a.challenger_claw_token.value ≡ some u
      → ((k : Pubkey)
          → (balance l' k
                + at k a.challenge_bond_vault.key a.challenge_bond_record.value.bond_amount
                + at k a.reward_vault a.challenge_bond_record.value.challenger_reward_amount
                + at k a.reward_vault a.challenge_bond_record.value.burn_amount
                + at k a.provider_pending_usdc_vault a.receipt_settlement.value.usdc_to_provider
              ≡ balance l k
                + at k a.challenger_claw_token.key a.challenge_bond_record.value.bond_amount
                + at k a.challenger_claw_token.key
                    a.challenge_bond_record.value.challenger_reward_amount
                + at k a.payer_usdc_token.key a.receipt_settlement.value.usdc_to_provider)
            × (supply l' k + at k a.claw_mint a.challenge_bond_record.value.burn_amount
                ≡ supply l k))
        × (t.owner ≡ a.receipt_settlement.value.payer_user)
        × (t.mint ≡ a.config.value.usdc_mint)
        × (u.owner ≡ a.challenge_bond_record.value.challenger)
        × (u.mint ≡ a.config.value.claw_mint)
  resolve-reverted_balances t u h c et eu =
      let (a₁, e, _) = resolve_stages r a a' code l l' h c in
      let (to, tm, uo, um) = revert_owners r a a₁ l l' t u e et eu in
      (λ k. payout-balances r laws a l l' k (revert_pays r a a₁ l l' e), to, tm, uo, um)

  -- A challenge that is rejected burns the bond: it leaves the bond vault and the supply of CLAW, and no
  -- other balance or supply changes.
  pub resolve-rejected_balances :
      resolve_challenge_economics r a code l ≡ ok (a', l')
      → code ≡ attestation_resolution_rejected
      → (k : Pubkey)
      → (balance l' k + at k a.challenge_bond_vault.key a.challenge_bond_record.value.bond_amount
          ≡ balance l k)
        × (supply l' k + at k a.claw_mint a.challenge_bond_record.value.bond_amount ≡ supply l k)
  unfolding resolve_challenge_economics burn_bond
  resolve-rejected_balances h c k =
      let e : r.burn a.claw_mint a.challenge_bond_vault.key a.pool_authority
            a.challenge_bond_record.value.bond_amount l
          ≡ ok l' =
        ground arith in
      (laws.balance-burn _ _ _ _ k l l' e, laws.supply-burn _ _ _ _ k l l' e)
