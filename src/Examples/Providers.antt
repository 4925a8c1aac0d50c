-- ===== src/Examples/Providers.antt =====
-- A provider on the chain: registered and leaving.
use clawfarm_masterpool.Prelude.{◌+◌, ◌≡◌, refl, ◌≢◌, ◌↔◌, none, some, ok, pos}
use clawfarm_masterpool.Runtime.{Account, Ledger, Pubkey, balance, supply, at}
use clawfarm_masterpool.Masterpool.Accounts.{ProviderAccount}
use clawfarm_masterpool.Masterpool.Utils.{checked_sub_u64, initialize_reward_account}
use clawfarm_masterpool.Masterpool.Receipt.{record_mining_from_receipt}
use clawfarm_masterpool.Masterpool.Provider.{
  RegisterProvider, register_provider, ExitProvider, exit_provider,
}
use clawfarm_masterpool.Masterpool.Provider.Obligations.{
  IsClear, exit_iff, exit_final, register-then-exit,
}
use clawfarm_masterpool.Examples.Chain.{derived, chain_at, left, moved, put, chain-TokenLaws}
use clawfarm_masterpool.Examples.Accounts.{ledger, config, signing, token, mint_of, mining}
use clawfarm_masterpool.Examples.Receipts.{recorded}

abbrev registering : RegisterProvider
registering = record {
  config = config;
  provider_account = record { key = derived; value = none };
  provider_reward_account = record { key = derived; value = none };
  provider_wallet = signing 12;
  provider_stake_usdc_vault = token 34 22 derived;
  provider_usdc_token = token 42 22 12;
  usdc_mint = mint_of 22;
}

abbrev registered : RegisterProvider × Ledger
registered = left (register_provider (chain_at 500) registering ledger) (registering, ledger)

register_runs : register_provider (chain_at 500) registering ledger ≡ ok registered
unfolding register_provider initialize_reward_account moved balance put
register_runs = refl

abbrev fresh_provider : Account ProviderAccount
fresh_provider = record {
  key = derived;
  value = record {
    provider_wallet = 12;
    staked_usdc_amount = 100_000_000;
    pending_provider_usdc = 0;
    claw_net_position = pos 0;
    unsettled_receipt_count = 0;
    unresolved_challenge_count = 0;
    status = 0;
    created_at = pos 500;
    updated_at = pos 500;
  };
}

register_leaves : registered.0.provider_account.value ≡ some fresh_provider.value
unfolding register_provider initialize_reward_account moved balance put
register_leaves = refl

abbrev exiting : ExitProvider
exiting = record {
  config = config;
  provider_account = fresh_provider;
  provider_wallet = signing 12;
  provider_stake_usdc_vault = token 34 22 derived;
  provider_destination_usdc = token 42 22 12;
  usdc_mint = mint_of 22;
  pool_authority = derived;
}

abbrev stake_back : Ledger
stake_back = left (moved 34 42 100_000_000 ledger) ledger

transfer_accepted : moved 34 42 100_000_000 ledger ≡ ok stake_back
unfolding moved balance put
transfer_accepted = refl

register-then-exit_example :
    IsClear fresh_provider.value
    × (fresh_provider.value.staked_usdc_amount ≡ config.value.provider_stake_usdc)
    × (fresh_provider.value.provider_wallet ≡ 12)
    × (registering.provider_usdc_token.value.owner ≡ 12)
    × (registering.provider_usdc_token.value.mint ≡ 22)
    × ((j : Pubkey)
        → (balance registered.1 j + at j 42 100_000_000 ≡ balance ledger j + at j 34 100_000_000)
          × (supply registered.1 j ≡ supply ledger j))
    × ((b' : ExitProvider) × (exit_provider (chain_at 600) exiting ledger ≡ ok (b', stake_back)))
register-then-exit_example =
    register-then-exit (chain_at 500) registering registered.0 ledger registered.1
      fresh_provider.value (chain-TokenLaws 500) (chain_at 600) exiting ledger stake_back
      register_runs register_leaves refl transfer_accepted

exit_iff_example :
    ((a' : ExitProvider) × (exit_provider (chain_at 600) exiting ledger ≡ ok (a', stake_back)))
    ↔ (IsClear fresh_provider.value × (moved 34 42 100_000_000 ledger ≡ ok stake_back))
exit_iff_example = exit_iff (chain_at 600) exiting ledger stake_back

abbrev exited : ExitProvider × Ledger
exited = left (exit_provider (chain_at 600) exiting ledger) (exiting, ledger)

exit_runs : exit_provider (chain_at 600) exiting ledger ≡ ok exited
unfolding exit_provider checked_sub_u64 moved balance put
exit_runs = refl

exit_final_example :
    (exited.0.provider_account.value.staked_usdc_amount ≡ 0)
    × (exit_provider (chain_at 700) exited.0 ledger ≢ ok exited)
    × (record_mining_from_receipt
          (chain_at 800)
          (record mining { provider_account = exited.0.provider_account })
          1_000_000
          ledger
        ≢ ok recorded)
exit_final_example =
    exit_final (chain_at 600) (chain_at 700) (chain_at 800) exiting exited.0 ledger exited.1
      exited.0 ledger (record mining { provider_account = exited.0.provider_account }) 1_000_000
      ledger exited recorded exit_runs refl refl
