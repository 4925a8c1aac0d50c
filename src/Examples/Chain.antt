-- ===== src/Examples/Chain.antt =====
-- A chain to run the programs on: a token program that refuses a transfer or a burn of more than the
-- account holds, and one address for everything that is derived.
use clawfarm_masterpool.Prelude.{
  ℕ, ◌+◌, ◌-◌, ◌≡◌, refl, ◌&&◌, none, some, ok, err, pos, leb, ◌==◌, if◌then◌else◌, arith,
}
use clawfarm_masterpool.Runtime.{
  Error, Outcome, Pubkey, TokenAccount, Mint, Ledger, Runtime, loaded, TokenLaws, balance, supply,
}

abbrev no_account : TokenAccount
no_account = record { mint = 0; owner = 0; amount = 0; delegate = none; delegated_amount = 0 }

abbrev no_mint : Mint
no_mint = record { mint_authority = none; supply = 0; decimals = 6; freeze_authority = none }

unfoldable pub put : Ledger → Pubkey → ℕ → Ledger
put l j n = record l {
  token_account = λ k.
      if k == j
      then some (record (loaded (l.token_account j) no_account) { amount = n })
      else l.token_account k;
}

unfoldable pub put_supply : Ledger → Pubkey → ℕ → Ledger
put_supply l j n = record l {
  mint = λ k. if k == j then some (record (loaded (l.mint j) no_mint) { supply = n }) else l.mint k;
}

abbrev pub refused : {A : Type 0} → Outcome A
refused = err (Error.program 1)

unfoldable pub moved : Pubkey → Pubkey → ℕ → Ledger → Outcome Ledger
moved src dst x l =
    if leb x (balance l src)
    then (let l₁ = put l src (balance l src - x) in ok (put l₁ dst (balance l₁ dst + x)))
    else refused

unfoldable pub burned : Pubkey → Pubkey → ℕ → Ledger → Outcome Ledger
burned m src x l =
    if leb x (balance l src) && leb x (supply l m)
    then ok (put_supply (put l src (balance l src - x)) m (supply l m - x))
    else refused

unfoldable pub minted : Pubkey → Pubkey → ℕ → Ledger → Outcome Ledger
minted m dst x l = ok (put_supply (put l dst (balance l dst + x)) m (supply l m + x))

abbrev pub derived : Pubkey
derived = 7

abbrev pub chain_at : ℕ → Runtime
chain_at t = record {
  now = pos t;
  find_address = λ _ _. derived;
  masterpool_id = 100;
  attestation_id = 200;
  transfer_checked = λ src m dst auth x d. moved src dst x;
  burn = λ m src auth x. burned m src x;
  mint_to = λ m dst auth x. minted m dst x;
  init_token_account = λ key mint owner l. ok l;
  set_authority = λ auth a t new l. ok l;
}

balance-put : (l : Ledger) (j n k : ℕ) → balance (put l j n) k ≡ (if k == j then n else balance l k)
unfolding put balance
balance-put l j n k = ground arith

supply-put : (l : Ledger) (j n k : ℕ) → supply (put l j n) k ≡ supply l k
unfolding put supply
supply-put l j n k = refl

balance-put_supply : (l : Ledger) (j n k : ℕ) → balance (put_supply l j n) k ≡ balance l k
unfolding put_supply balance
balance-put_supply l j n k = refl

supply-put_supply :
    (l : Ledger) (j n k : ℕ) → supply (put_supply l j n) k ≡ (if k == j then n else supply l k)
unfolding put_supply supply
supply-put_supply l j n k = ground arith

-- This token program does what the token program documents.
pub chain-TokenLaws : (t : ℕ) → TokenLaws (chain_at t)
unfolding moved burned minted
chain-TokenLaws t = record {
  balance-transfer = λ src m dst auth x d k l l' h.
      let l₁ = put l src (balance l src - x) in
      ground (
        arith,
        balance-put l₁ dst (balance l₁ dst + x) k,
        balance-put l src (balance l src - x) k,
        balance-put l src (balance l src - x) dst,
      );
  supply-transfer = λ src m dst auth x d k l l' h.
      let l₁ = put l src (balance l src - x) in
      ground
        (arith, supply-put l₁ dst (balance l₁ dst + x) k, supply-put l src (balance l src - x) k);
  balance-burn = λ m src auth x k l l' h.
      let l₁ = put l src (balance l src - x) in
      ground (
        arith,
        balance-put_supply l₁ m (supply l m - x) k,
        balance-put l src (balance l src - x) k,
      );
  supply-burn = λ m src auth x k l l' h.
      let l₁ = put l src (balance l src - x) in
      ground
        (arith, supply-put_supply l₁ m (supply l m - x) k, supply-put l src (balance l src - x) k);
  balance-mint = λ m dst auth x k l l' h.
      let l₁ = put l dst (balance l dst + x) in
      ground (
        arith,
        balance-put_supply l₁ m (supply l m + x) k,
        balance-put l dst (balance l dst + x) k,
      );
  supply-mint = λ m dst auth x k l l' h.
      let l₁ = put l dst (balance l dst + x) in
      ground
        (arith, supply-put_supply l₁ m (supply l m + x) k, supply-put l dst (balance l dst + x) k);
  balance-authority = λ auth a k t new l l' h. ground arith;
  supply-authority = λ auth a k t new l l' h. ground arith;
}

-- What an instruction leaves, or what it was given where it fails.
abbrev pub left : {A : Type 0} → Outcome A → A → A
left (ok a) before = a
left (err _) before = before
