-- ===== src/Examples/Accounts.antt =====
-- The accounts of the examples: one payer, one provider in debt, one challenger.
use clawfarm_masterpool.Prelude.{ℕ, true, false, none, some, pos, negsuc}
use clawfarm_masterpool.Runtime.{Pubkey, AccountInfo, Account, Slot, TokenAccount, Mint, Ledger}
use clawfarm_masterpool.Masterpool.Types.{Phase1ConfigParams}
use clawfarm_masterpool.Masterpool.Accounts.{
  GlobalConfig, ProviderAccount, RewardAccount, ReceiptSettlement, ChallengeBondRecord,
}
use clawfarm_masterpool.Masterpool.Receipt.{RecordMiningFromReceipt, SettleFinalizedReceipt}
use clawfarm_masterpool.Masterpool.Challenge.{RecordChallengeBond, ResolveChallengeEconomics}
use clawfarm_masterpool.Examples.Chain.{derived}

abbrev pub params : Phase1ConfigParams
params = record {
  exchange_rate_claw_per_usdc_e6 = 1_000_000;
  provider_stake_usdc = 100_000_000;
  provider_usdc_share_bps = 700;
  treasury_usdc_share_bps = 300;
  user_claw_share_bps = 300;
  provider_claw_share_bps = 700;
  lock_days = 180;
  provider_slash_claw_amount = 30_000_000;
  challenger_reward_bps = 700;
  burn_bps = 300;
  challenge_bond_claw_amount = 2_000_000;
}

abbrev pub config : Account GlobalConfig
config = record {
  key = derived;
  value = record {
    version = 1;
    admin_authority = 10;
    attestation_program = 200;
    claw_mint = 21;
    usdc_mint = 22;
    reward_vault = 31;
    challenge_bond_vault = 32;
    treasury_usdc_vault = 33;
    provider_stake_usdc_vault = 34;
    provider_pending_usdc_vault = 35;
    exchange_rate_claw_per_usdc_e6 = 1_000_000;
    provider_stake_usdc = 100_000_000;
    provider_usdc_share_bps = 700;
    treasury_usdc_share_bps = 300;
    user_claw_share_bps = 300;
    provider_claw_share_bps = 700;
    lock_days = 180;
    provider_slash_claw_amount = 30_000_000;
    challenger_reward_bps = 700;
    burn_bps = 300;
    challenge_bond_claw_amount = 2_000_000;
    genesis_minted = false;
    pause_receipt_recording = false;
    pause_challenge_processing = false;
    pause_finalization = false;
    pause_claims = false;
    created_at = pos 0;
    updated_at = pos 0;
  };
}

-- An account that signs.
abbrev pub signing : Pubkey → AccountInfo
signing k = record { key = k; owner = 0; is_signer = true; executable = false }

-- The account by which the attestation program calls the masterpool.
abbrev pub caller : AccountInfo
caller = record { key = derived; owner = 200; is_signer = true; executable = false }

abbrev pub token : Pubkey → Pubkey → Pubkey → Account TokenAccount
token k mint owner = record {
  key = k;
  value = record {
    mint = mint;
    owner = owner;
    amount = 1_000_000_000_000;
    delegate = some 13;
    delegated_amount = 5_000_000;
  };
}

abbrev pub token_slot : Pubkey → Pubkey → Pubkey → Slot TokenAccount
token_slot k mint owner = record { key = k; value = some (token k mint owner).value }

abbrev pub mint_of : Pubkey → Account Mint
mint_of k = record {
  key = k;
  value = record {
    mint_authority = some derived;
    supply = 0;
    decimals = 6;
    freeze_authority = some derived;
  };
}

abbrev pub ledger : Ledger
ledger = record {
  token_account = λ k. some (token k 0 0).value;
  mint = λ k. some (record (mint_of k).value { supply = 1_000_000_000_000_000 });
}

abbrev pub provider_account : Account ProviderAccount
provider_account = record {
  key = derived;
  value = record {
    provider_wallet = 12;
    staked_usdc_amount = 100_000_000;
    pending_provider_usdc = 0;
    claw_net_position = negsuc 499_999;
    unsettled_receipt_count = 0;
    unresolved_challenge_count = 0;
    status = 0;
    created_at = pos 0;
    updated_at = pos 0;
  };
}

abbrev pub reward_account : Pubkey → ℕ → ℕ → ℕ → RewardAccount
reward_account owner kind pending locked = record {
  initialized = true;
  owner = owner;
  reward_kind = kind;
  pending_claw_total = pending;
  locked_claw_total = locked;
  released_claw_total = 0;
  claimed_claw_total = 0;
  created_at = pos 0;
  updated_at = pos 1_000;
}

-- A charge of 1 USDC.
abbrev pub mining : RecordMiningFromReceipt
mining = record {
  config = config;
  attestation_config = caller;
  payer_user = 11;
  fee_payer = signing 15;
  payment_delegate = signing 13;
  payer_usdc_token = token 41 22 11;
  provider_account = provider_account;
  provider_reward_account = record { key = derived; value = reward_account 12 1 0 0 };
  user_reward_account = record { key = derived; value = some (reward_account 11 0 0 0) };
  receipt_settlement = record { key = derived; value = none };
  attestation_receipt = derived;
  treasury_usdc_vault = token 33 22 derived;
  provider_pending_usdc_vault = token 35 22 derived;
  usdc_mint = mint_of 22;
}

-- What the charge leaves: the provider's reward pays off its debt of half a CLAW first.
abbrev pub settlement : ReceiptSettlement
settlement = record {
  attestation_receipt = derived;
  payer_user = 11;
  provider_wallet = 12;
  usdc_total_paid = 1_000_000;
  usdc_to_provider = 700_000;
  usdc_to_treasury = 300_000;
  claw_to_user = 300_000;
  claw_to_provider_total = 700_000;
  claw_provider_debt_offset = 500_000;
  claw_to_provider_locked = 200_000;
  lock_days_snapshot = 180;
  reward_lock_started_at = pos 0;
  user_claw_released = 0;
  provider_claw_released = 0;
  status = 0;
  created_at = pos 1_000;
  updated_at = pos 1_000;
}

-- The provider with that receipt, and with the given number of challenges.
abbrev pub busy_provider : ℕ → Account ProviderAccount
busy_provider challenges = record provider_account {
  value = record provider_account.value {
    claw_net_position = pos 200_000;
    pending_provider_usdc = 700_000;
    unsettled_receipt_count = 1;
    unresolved_challenge_count = challenges;
  };
}

abbrev pub settling : SettleFinalizedReceipt
settling = record {
  config = config;
  attestation_config = caller;
  attestation_receipt = derived;
  receipt_settlement = record { key = derived; value = settlement };
  provider_account = busy_provider 0;
  provider_reward_account = record { key = derived; value = reward_account 12 1 200_000 0 };
  user_reward_account = record { key = derived; value = reward_account 11 0 300_000 0 };
  provider_pending_usdc_vault = token 35 22 derived;
  provider_destination_usdc = token 42 22 12;
  usdc_mint = mint_of 22;
  pool_authority = derived;
}

abbrev pub bonding : RecordChallengeBond
bonding = record {
  config = config;
  attestation_config = caller;
  challenger = signing 14;
  challenger_claw_token = token 43 21 14;
  attestation_receipt = derived;
  attestation_challenge = derived;
  receipt_settlement = record { key = derived; value = settlement };
  provider_account = busy_provider 0;
  challenge_bond_record = record { key = derived; value = none };
  challenge_bond_vault = 32;
  claw_mint = mint_of 21;
}

abbrev pub bond : ChallengeBondRecord
bond = record {
  attestation_challenge = derived;
  attestation_receipt = derived;
  challenger = 14;
  payer_user = 11;
  provider_wallet = 12;
  bond_amount = 2_000_000;
  slash_claw_amount_snapshot = 30_000_000;
  challenger_reward_bps_snapshot = 700;
  burn_bps_snapshot = 300;
  challenger_reward_amount = 21_000_000;
  burn_amount = 9_000_000;
  status = 0;
  created_at = pos 1_000;
  updated_at = pos 1_000;
}

abbrev pub resolving : ResolveChallengeEconomics
resolving = record {
  config = config;
  attestation_config = caller;
  attestation_receipt = derived;
  attestation_challenge = derived;
  receipt_settlement = record { key = derived; value = settlement };
  challenge_bond_record = record { key = derived; value = bond };
  provider_account = busy_provider 1;
  provider_reward_account = record { key = derived; value = reward_account 12 1 200_000 0 };
  user_reward_account = record { key = derived; value = reward_account 11 0 300_000 0 };
  challenge_bond_vault = token 32 21 derived;
  reward_vault = 31;
  provider_pending_usdc_vault = 35;
  challenger_claw_token = token_slot 43 21 14;
  payer_usdc_token = token_slot 41 22 11;
  claw_mint = 21;
  usdc_mint = 22;
  pool_authority = derived;
}
