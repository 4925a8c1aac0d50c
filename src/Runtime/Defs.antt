-- ===== src/Runtime/Defs.antt =====
-- What the programs take from the chain: addresses, account headers, token accounts and mints, the
-- clock, derived addresses and the token program's instructions. None of it is code of the
-- repository, so the operations are fields of a record that the instructions take as an argument.
use clawfarm_masterpool.Prelude.{ℕ, ◌+◌, ◌≡◌, Bool, Option, none, some, ok, ℤ, ◌==◌, if◌then◌else◌}
use clawfarm_masterpool.Runtime.Failure.{Outcome}

-- An address is the number that its 32 bytes spell, so `Pubkey::default()` is 0.
abbrev pub Pubkey : Type 0
Pubkey = ℕ

abbrev pub default_pubkey : Pubkey
default_pubkey = 0

pub record AccountInfo : Type 0 where
  pub key : Pubkey
  pub owner : Pubkey
  pub is_signer : Bool
  pub executable : Bool

-- An account that the framework has decoded.
pub record Account (A : Type 0) : Type 0 where
  pub key : Pubkey
  pub value : A

-- An account that the instruction may create: `none` before it exists.
pub record Slot (A : Type 0) : Type 0 where
  pub key : Pubkey
  pub value : Option A

pub record TokenAccount : Type 0 where
  pub mint : Pubkey
  pub owner : Pubkey
  pub amount : ℕ
  pub delegate : Option Pubkey
  pub delegated_amount : ℕ

pub record Mint : Type 0 where
  pub mint_authority : Option Pubkey
  pub supply : ℕ
  pub decimals : ℕ
  pub freeze_authority : Option Pubkey

-- The accounts that the token program owns.
pub record Ledger : Type 0 where
  pub token_account : Pubkey → Option TokenAccount
  pub mint : Pubkey → Option Mint

abbrev pub amount_of : Option TokenAccount → ℕ
amount_of none = 0
amount_of (some a) = a.amount

abbrev pub supply_of : Option Mint → ℕ
supply_of none = 0
supply_of (some m) = m.supply

unfoldable pub balance : Ledger → Pubkey → ℕ
balance l k = amount_of (l.token_account k)

unfoldable pub supply : Ledger → Pubkey → ℕ
supply l k = supply_of (l.mint k)

-- The seeds of every derived address of the two programs.
pub data Seeds : Type 0 where
  config pool_authority reward_vault challenge_bond_vault treasury_usdc_vault : Seeds
  provider_stake_usdc_vault provider_pending_usdc_vault : Seeds
  provider provider_reward user_reward receipt_settlement challenge_bond_record : Pubkey → Seeds
  faucet_config faucet_global faucet_claw_vault faucet_usdc_vault : Seeds
  faucet_user receipt challenge : Pubkey → Seeds
  provider_signer : Pubkey → Pubkey → Seeds

pub data AuthorityType : Type 0 where
  mint_tokens freeze_account : AuthorityType

-- The clock and the programs that the instructions call.
pub record Runtime : Type 0 where
  -- `Clock::get()?.unix_timestamp`, the same throughout one instruction.
  pub now : ℤ
  -- `Pubkey::find_program_address(seeds, program)`.
  pub find_address : Pubkey → Seeds → Pubkey
  -- The addresses of the two programs.
  pub masterpool_id : Pubkey
  pub attestation_id : Pubkey
  -- from, mint, to, authority, amount, decimals
  pub transfer_checked : Pubkey → Pubkey → Pubkey → Pubkey → ℕ → ℕ → Ledger → Outcome Ledger
  -- mint, from, authority, amount
  pub burn : Pubkey → Pubkey → Pubkey → ℕ → Ledger → Outcome Ledger
  -- mint, to, authority, amount
  pub mint_to : Pubkey → Pubkey → Pubkey → ℕ → Ledger → Outcome Ledger
  -- address, mint, owner: the token account that `init` creates
  pub init_token_account : Pubkey → Pubkey → Pubkey → Ledger → Outcome Ledger
  -- current authority, account or mint, kind, new authority
  pub set_authority : Pubkey → Pubkey → AuthorityType → Option Pubkey → Ledger → Outcome Ledger

-- What the loader records of a deployed program.
pub record ProgramData : Type 0 where
  pub upgrade_authority_address : Option Pubkey

-- `x` where the addresses agree, and 0 elsewhere.
abbrev pub at : Pubkey → Pubkey → ℕ → ℕ
at k j x = if k == j then x else 0

-- What the token program documents of a call that it accepts: a transfer takes the amount from one
-- account and adds it to the other; a burn takes it from the account and from the supply; minting
-- adds it to both; setting an authority moves nothing. No other balance or supply changes.
pub record TokenLaws (r : Runtime) : Type 0 where
  pub balance-transfer :
      (src m dst auth x d k : ℕ) (l l' : Ledger)
      → r.transfer_checked src m dst auth x d l ≡ ok l'
      → balance l' k + at k src x ≡ balance l k + at k dst x
  pub supply-transfer :
      (src m dst auth x d k : ℕ) (l l' : Ledger)
      → r.transfer_checked src m dst auth x d l ≡ ok l'
      → supply l' k ≡ supply l k
  pub balance-burn :
      (m src auth x k : ℕ) (l l' : Ledger)
      → r.burn m src auth x l ≡ ok l'
      → balance l' k + at k src x ≡ balance l k
  pub supply-burn :
      (m src auth x k : ℕ) (l l' : Ledger)
      → r.burn m src auth x l ≡ ok l'
      → supply l' k + at k m x ≡ supply l k
  pub balance-mint :
      (m dst auth x k : ℕ) (l l' : Ledger)
      → r.mint_to m dst auth x l ≡ ok l'
      → balance l' k ≡ balance l k + at k dst x
  pub supply-mint :
      (m dst auth x k : ℕ) (l l' : Ledger)
      → r.mint_to m dst auth x l ≡ ok l'
      → supply l' k ≡ supply l k + at k m x
  pub balance-authority :
      (auth a k : ℕ) (t : AuthorityType) (new : Option Pubkey) (l l' : Ledger)
      → r.set_authority auth a t new l ≡ ok l'
      → balance l' k ≡ balance l k
  pub supply-authority :
      (auth a k : ℕ) (t : AuthorityType) (new : Option Pubkey) (l l' : Ledger)
      → r.set_authority auth a t new l ≡ ok l'
      → supply l' k ≡ supply l k
