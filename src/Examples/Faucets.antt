-- ===== src/Examples/Faucets.antt =====
-- A claim of the faucet on the chain: the second of a user, on the next day of the faucet.
use clawfarm_masterpool.Prelude.{ℕ, ◌+◌, ◌*◌, ◌≡◌, refl, true, some, ok, pos}
use clawfarm_masterpool.Runtime.{Pubkey, Ledger, balance, supply, at}
use clawfarm_masterpool.Masterpool.Types.{FaucetClaimArgs}
use clawfarm_masterpool.Masterpool.Accounts.{FaucetUserState}
use clawfarm_masterpool.Masterpool.Utils.{checked_add_u64}
use clawfarm_masterpool.Masterpool.Faucet.{
  ClaimFaucet, claim_faucet, pay_faucet_claim, current_day_index, reset_global_if_needed,
  initialize_or_reset_user_if_needed,
}
use clawfarm_masterpool.Masterpool.Faucet.Caps.{
  IsCapped, claim_faucet-IsCapped, claim_faucet-balances,
}
use clawfarm_masterpool.Examples.Chain.{derived, chain_at, left, moved, put, chain-TokenLaws}
use clawfarm_masterpool.Examples.Accounts.{ledger, config, signing, token, mint_of}

abbrev amounts : FaucetClaimArgs
amounts = record { claw_amount = 3_000_000; usdc_amount = 4_000_000 }

abbrev user_before : FaucetUserState
user_before = record {
  owner = 11;
  current_day_index = pos 5;
  claw_claimed_today = 2_000_000;
  usdc_claimed_today = 0;
  created_at = pos 0;
  updated_at = pos 0;
}

abbrev claiming : ClaimFaucet
claiming = record {
  config = config;
  faucet_config = record {
    key = derived;
    value = record {
      admin_authority = 10;
      enabled = true;
      faucet_claw_vault = 36;
      faucet_usdc_vault = 37;
      max_claw_per_claim = 10_000_000;
      max_usdc_per_claim = 10_000_000;
      max_claw_per_wallet_per_day = 50_000_000;
      max_usdc_per_wallet_per_day = 50_000_000;
      max_claw_global_per_day = 50_000_000_000;
      max_usdc_global_per_day = 50_000_000_000;
      created_at = pos 0;
      updated_at = pos 0;
    };
  };
  faucet_global_state = record {
    key = derived;
    value = record {
      current_day_index = pos 4;
      claw_claimed_today = 9_000_000;
      usdc_claimed_today = 9_000_000;
      updated_at = pos 0;
    };
  };
  faucet_user_state = record { key = derived; value = some user_before };
  faucet_claw_vault = token 36 21 derived;
  faucet_usdc_vault = token 37 22 derived;
  user_claw_token = token 44 21 11;
  user_usdc_token = token 41 22 11;
  claw_mint = mint_of 21;
  usdc_mint = mint_of 22;
  pool_authority = derived;
  user = 11;
  payer = signing 15;
}

abbrev noon : ℕ
noon = 5 * 86_400 + 43_200

abbrev user_after : FaucetUserState
user_after = record user_before {
  claw_claimed_today = 5_000_000;
  usdc_claimed_today = 4_000_000;
  updated_at = pos noon;
}

abbrev claimed : ClaimFaucet × Ledger
claimed = left (claim_faucet (chain_at noon) claiming amounts ledger) (claiming, ledger)

claim_runs : claim_faucet (chain_at noon) claiming amounts ledger ≡ ok claimed
unfolding claim_faucet pay_faucet_claim current_day_index reset_global_if_needed
    initialize_or_reset_user_if_needed checked_add_u64 moved balance put
claim_runs = refl

claim_leaves : claimed.0.faucet_user_state.value ≡ some user_after
unfolding claim_faucet pay_faucet_claim current_day_index reset_global_if_needed
    initialize_or_reset_user_if_needed checked_add_u64 moved balance put
claim_leaves = refl

fifth_day : current_day_index (pos noon) ≡ ok (pos 5)
unfolding current_day_index
fifth_day = refl

claim_faucet-IsCapped_example : IsCapped claiming claimed.0 amounts (pos 5) user_before user_after
claim_faucet-IsCapped_example =
    claim_faucet-IsCapped (chain_at noon) claiming claimed.0 amounts ledger claimed.1 (pos 5)
      user_after claim_runs fifth_day claim_leaves

claim_faucet-balances_example :
    (claiming.user_claw_token.value.owner ≡ 11)
    × (claiming.user_usdc_token.value.owner ≡ 11)
    × ((k : Pubkey)
        → (balance claimed.1 k + at k 36 3_000_000 + at k 37 4_000_000
            ≡ balance ledger k + at k 44 3_000_000 + at k 41 4_000_000)
          × (supply claimed.1 k ≡ supply ledger k))
claim_faucet-balances_example =
    claim_faucet-balances (chain_at noon) claiming claimed.0 amounts ledger claimed.1
      (chain-TokenLaws noon) claim_runs
