-- ===== src/Masterpool/Provider/Obligations.antt =====
-- Who may register and who may leave: laws of `register_provider` and `exit_provider`.
use clawfarm_masterpool.Prelude.{
  ℕ, ◌+◌, ◌≡◌, ◌≢◌, inl, inr, ◌↔◌, some, ok, pos, ◌≤ℤ◌, arith, Result-cases,
}
use clawfarm_masterpool.Runtime.{Outcome, Pubkey, Ledger, Runtime, TokenLaws, balance, supply, at}
use clawfarm_masterpool.Masterpool.Types.{ProviderStatus, provider_status_code}
use clawfarm_masterpool.Masterpool.Accounts.{ProviderAccount}
use clawfarm_masterpool.Masterpool.Utils.{checked_sub_u64}
use clawfarm_masterpool.Masterpool.Provider.{
  RegisterProvider, register_provider, ExitProvider, exit_provider,
}
use clawfarm_masterpool.Masterpool.Receipt.{RecordMiningFromReceipt, record_mining_from_receipt}

-- A provider that owes nothing and is owed nothing.
pub record IsClear (p : ProviderAccount) : Type 0 where
  pub active : p.status ≡ provider_status_code ProviderStatus.active
  pub pending : p.pending_provider_usdc ≡ 0
  pub receipts : p.unsettled_receipt_count ≡ 0
  pub challenges : p.unresolved_challenge_count ≡ 0
  pub net_position : pos 0 ≤ℤ p.claw_net_position

abbrev exit_transfer : Runtime → ExitProvider → Ledger → Outcome Ledger
exit_transfer r a l =
    r.transfer_checked a.provider_stake_usdc_vault.key a.usdc_mint.key
      a.provider_destination_usdc.key a.pool_authority a.provider_account.value.staked_usdc_amount
      a.usdc_mint.value.decimals l

-- A provider leaves exactly if it is active, has no pending USDC, no unsettled receipt, no unresolved
-- challenge and no negative net position, and the token program accepts the transfer of its
-- stake; the ledger is then that of the transfer.
pub exit_iff :
    (r : Runtime) (a : ExitProvider) (l l' : Ledger)
    → ((a' : ExitProvider) × (exit_provider r a l ≡ ok (a', l'))) ↔ (
        IsClear a.provider_account.value
        × (r.transfer_checked a.provider_stake_usdc_vault.key a.usdc_mint.key
              a.provider_destination_usdc.key a.pool_authority
              a.provider_account.value.staked_usdc_amount a.usdc_mint.value.decimals l
            ≡ ok l'))
unfolding exit_provider checked_sub_u64
exit_iff r a l l' = (
  λ (a', h). (ground arith, ground arith),
  λ (c, e). elim (Result-cases (exit_provider r a l)) [
    | inl ((a', l₁), h) ↦ (a', ground arith)
    | inr (f, h) ↦ absurd (ground arith)
  ],
)

-- A provider that has left has no stake and can neither leave again nor record a receipt, whatever the other
-- accounts, the time and the ledger.
pub exit_final :
    (r r₂ r₃ : Runtime) (a a' : ExitProvider) (l l' : Ledger) (b : ExitProvider) (k : Ledger)
    (c : RecordMiningFromReceipt) (x : ℕ) (j : Ledger) (done : ExitProvider × Ledger)
    (recorded : RecordMiningFromReceipt × Ledger)
    → exit_provider r a l ≡ ok (a', l')
    → b.provider_account.value ≡ a'.provider_account.value
    → c.provider_account.value ≡ a'.provider_account.value
    → (a'.provider_account.value.staked_usdc_amount ≡ 0)
      × (exit_provider r₂ b k ≢ ok done)
      × (record_mining_from_receipt r₃ c x j ≢ ok recorded)
unfolding exit_provider checked_sub_u64 record_mining_from_receipt
exit_final r r₂ r₃ a a' l l' b k c x j done recorded h e f =
    (ground arith, λ g. ground arith, λ g. ground arith)

module _ (r : Runtime) (a a' : RegisterProvider) (l l' : Ledger) (p : ProviderAccount) where
  register_calls :
      register_provider r a l ≡ ok (a', l')
      → r.transfer_checked a.provider_usdc_token.key a.usdc_mint.key a.provider_stake_usdc_vault.key
          a.provider_wallet.key a.config.value.provider_stake_usdc a.usdc_mint.value.decimals l
        ≡ ok l'
  unfolding register_provider
  register_calls h = ground arith

  -- A provider that registers pays exactly the configured stake from a USDC account of its own to the stake
  -- vault, no other balance and no supply changes, and it is active and owes nothing. It can leave at
  -- once: as soon as the token program accepts the transfer of that stake back, `exit_provider` succeeds.
  pub register-then-exit :
      (laws : TokenLaws r) (r₂ : Runtime) (b : ExitProvider) (k k' : Ledger)
      → register_provider r a l ≡ ok (a', l')
      → a'.provider_account.value ≡ some p
      → b.provider_account.value ≡ p
      → r₂.transfer_checked b.provider_stake_usdc_vault.key b.usdc_mint.key
          b.provider_destination_usdc.key b.pool_authority a.config.value.provider_stake_usdc
          b.usdc_mint.value.decimals k
        ≡ ok k'
      → IsClear p
        × (p.staked_usdc_amount ≡ a.config.value.provider_stake_usdc)
        × (p.provider_wallet ≡ a.provider_wallet.key)
        × (a.provider_usdc_token.value.owner ≡ a.provider_wallet.key)
        × (a.provider_usdc_token.value.mint ≡ a.config.value.usdc_mint)
        × ((j : Pubkey)
            → (balance l' j + at j a.provider_usdc_token.key a.config.value.provider_stake_usdc
                ≡ balance l j
                  + at j a.provider_stake_usdc_vault.key a.config.value.provider_stake_usdc)
              × (supply l' j ≡ supply l j))
        × ((b' : ExitProvider) × (exit_provider r₂ b k ≡ ok (b', k')))
  unfolding register_provider
  register-then-exit laws r₂ b k k' h e f t =
      let clear : IsClear p = ground arith in
      let stake : p.staked_usdc_amount ≡ a.config.value.provider_stake_usdc = ground arith in
      let paid = register_calls h in
      (
        clear,
        stake,
        ground arith,
        ground arith,
        ground arith,
        λ j. (
          laws.balance-transfer _ _ _ _ _ _ j l l' paid,
          laws.supply-transfer _ _ _ _ _ _ j l l' paid,
        ),
        (exit_iff r₂ b k k').1 (ground (arith, clear), ground arith),
      )
