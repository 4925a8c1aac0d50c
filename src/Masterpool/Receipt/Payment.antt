-- ===== src/Masterpool/Receipt/Payment.antt =====
-- Where the tokens of a recorded and of a settled receipt go.
use clawfarm_masterpool.Prelude.{ℕ, ◌+◌, ◌≡◌, inl, inr, some, ok, arith, Result-cases}
use clawfarm_masterpool.Runtime.{Outcome, Pubkey, Ledger, Runtime, TokenLaws, balance, supply, at}
use clawfarm_masterpool.Masterpool.Accounts.{ReceiptSettlement}
use clawfarm_masterpool.Masterpool.Utils.{checked_sub_u64}
use clawfarm_masterpool.Masterpool.Receipt.{
  RecordMiningFromReceipt, record_mining_from_receipt, SettleFinalizedReceipt,
  settle_finalized_receipt,
}

module _ (r : Runtime) (laws : TokenLaws r) (a a' : RecordMiningFromReceipt) (x : ℕ) (l l' : Ledger)
    (s : ReceiptSettlement) where
  record_calls :
      record_mining_from_receipt r a x l ≡ ok (a', l')
      → a'.receipt_settlement.value ≡ some s
      → (l₁ : Ledger) × (r.transfer_checked a.payer_usdc_token.key a.usdc_mint.key
            a.treasury_usdc_vault.key a.payment_delegate.key s.usdc_to_treasury
            a.usdc_mint.value.decimals l
          ≡ ok l₁)
        × (r.transfer_checked a.payer_usdc_token.key a.usdc_mint.key
              a.provider_pending_usdc_vault.key a.payment_delegate.key s.usdc_to_provider
              a.usdc_mint.value.decimals l₁
            ≡ ok l')
        × (s.usdc_to_provider + s.usdc_to_treasury ≡ x)
  unfolding record_mining_from_receipt checked_sub_u64
  record_calls h e = elim (Result-cases first) [
    | inl (l₁, e₁) ↦ (l₁, ground arith, ground arith, ground arith)
    | inr (c, e₁) ↦ absurd (ground arith)
  ]
    where
      first : Outcome Ledger
      first =
          r.transfer_checked a.payer_usdc_token.key a.usdc_mint.key a.treasury_usdc_vault.key
            a.payment_delegate.key s.usdc_to_treasury a.usdc_mint.value.decimals l

  -- Recording a receipt takes exactly the charge from the payer's token account, and adds the
  -- settlement's treasury part to the treasury vault and its provider part to the pending vault; no
  -- other balance changes, and no supply.
  pub record_mining-balances :
      record_mining_from_receipt r a x l ≡ ok (a', l')
      → a'.receipt_settlement.value ≡ some s
      → (k : Pubkey)
      → (balance l' k + at k a.payer_usdc_token.key x
          ≡ balance l k
            + at k a.treasury_usdc_vault.key s.usdc_to_treasury
            + at k a.provider_pending_usdc_vault.key s.usdc_to_provider)
        × (supply l' k ≡ supply l k)
  record_mining-balances h e k =
      let (l₁, e₁, e₂, total) = record_calls h e in
      ground (
        arith,
        laws.balance-transfer _ _ _ _ _ _ k l l₁ e₁,
        laws.balance-transfer _ _ _ _ _ _ k l₁ l' e₂,
        laws.supply-transfer _ _ _ _ _ _ k l l₁ e₁,
        laws.supply-transfer _ _ _ _ _ _ k l₁ l' e₂,
      )

-- Settling a receipt pays the settlement's provider part from the pending vault to the destination,
-- changes no other balance and no supply.
pub settle-balances :
    (r : Runtime) (laws : TokenLaws r) (a a' : SettleFinalizedReceipt) (status : ℕ) (l l' : Ledger)
    → settle_finalized_receipt r a status l ≡ ok (a', l')
    → (k : Pubkey)
    → (balance l' k
          + at k a.provider_pending_usdc_vault.key a.receipt_settlement.value.usdc_to_provider
        ≡ balance l k
          + at k a.provider_destination_usdc.key a.receipt_settlement.value.usdc_to_provider)
      × (supply l' k ≡ supply l k)
unfolding settle_finalized_receipt
settle-balances r laws a a' status l l' h k =
    let e : r.transfer_checked a.provider_pending_usdc_vault.key a.usdc_mint.key
          a.provider_destination_usdc.key a.pool_authority
          a.receipt_settlement.value.usdc_to_provider a.usdc_mint.value.decimals l
        ≡ ok l' =
      ground arith in
    (laws.balance-transfer _ _ _ _ _ _ k l l' e, laws.supply-transfer _ _ _ _ _ _ k l l' e)
