-- ===== src/Runtime/Optional.antt =====
-- Calls of the token program that are made only for a positive amount: what they change is what the
-- call would change, since an amount of zero changes nothing.
use clawfarm_masterpool.Prelude.{◌+◌, ◌≡◌, ℕ, ok, ltb, if◌then◌else◌, arith}
use clawfarm_masterpool.Runtime.Defs.{Ledger, Runtime, TokenLaws, balance, supply, at}

module _ (r : Runtime) (laws : TokenLaws r) where
  -- A transfer that is made only for a positive amount.
  pub optional_transfer :
      (src m dst auth x d k : ℕ) (l l' : Ledger)
      → (if ltb 0 x then r.transfer_checked src m dst auth x d l else ok l) ≡ ok l'
      → (balance l' k + at k src x ≡ balance l k + at k dst x) × (supply l' k ≡ supply l k)
  optional_transfer src m dst auth x d k l l' h = ground (
    arith,
    laws.balance-transfer src m dst auth x d k l l',
    laws.supply-transfer src m dst auth x d k l l',
  )

  pub optional_burn :
      (m src auth x k : ℕ) (l l' : Ledger)
      → (if ltb 0 x then r.burn m src auth x l else ok l) ≡ ok l'
      → (balance l' k + at k src x ≡ balance l k) × (supply l' k + at k m x ≡ supply l k)
  optional_burn m src auth x k l l' h =
      ground (arith, laws.balance-burn m src auth x k l l', laws.supply-burn m src auth x k l l')
