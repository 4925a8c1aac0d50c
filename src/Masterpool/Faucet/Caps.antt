-- ===== src/Masterpool/Faucet/Caps.antt =====
-- What a claim of the faucet is held to: laws of `claim_faucet`.
use clawfarm_masterpool.Prelude.{
  ℕ, ◌+◌, ◌*◌, ◌≤◌, ◌<◌, ◌≡◌, ap, ◌∙◌, inl, inr, true, some, ok, ℤ, pos, eqb_ℤ, ltb, ◌==◌,
  if◌then◌else◌, arith, Bool-cases, Result-cases, >>=-eq-ok,
}
use clawfarm_masterpool.Runtime.{
  Pubkey, Ledger, Runtime, default_pubkey, loaded, TokenLaws, balance, supply, at,
}
use clawfarm_masterpool.Masterpool.Constants.{seconds_per_utc_day}
use clawfarm_masterpool.Masterpool.Types.{FaucetClaimArgs}
use clawfarm_masterpool.Masterpool.Accounts.{FaucetGlobalState, FaucetUserState}
use clawfarm_masterpool.Masterpool.Utils.{checked_add_u64}
use clawfarm_masterpool.Runtime.Optional.{optional_transfer}
use clawfarm_masterpool.Masterpool.Faucet.{
  current_day_index, reset_global_if_needed, initialize_or_reset_user_if_needed, ClaimFaucet,
  claim_faucet, pay_faucet_claim, blank_user_state,
}

-- A day is a span of 86400 seconds from the epoch on.
pub current_day_index-bounds :
    (t day : ℕ)
    → current_day_index (pos t) ≡ ok (pos day)
    → (day * seconds_per_utc_day ≤ t) × (t < (day + 1) * seconds_per_utc_day)
unfolding current_day_index
current_day_index-bounds t day h = ground arith

-- What was claimed today, by counters that are of another day or of today.
abbrev claimed_on : ℤ → ℤ → ℕ → ℕ
claimed_on day today claimed = if eqb_ℤ day today then claimed else 0

-- The same for a user, whose counters may be blank.
abbrev user_claimed_on : FaucetUserState → ℤ → ℕ → ℕ
user_claimed_on u today claimed =
    if u.owner == default_pubkey then 0 else claimed_on u.current_day_index today claimed

-- Counters that are reset on a new day.
record IsToday (g g' : FaucetGlobalState) (day : ℤ) : Type 0 where
  today : eqb_ℤ g'.current_day_index day ≡ true
  claw : g'.claw_claimed_today ≡ claimed_on g.current_day_index day g.claw_claimed_today
  usdc : g'.usdc_claimed_today ≡ claimed_on g.current_day_index day g.usdc_claimed_today

eqb_ℤ_refl : (a : ℤ) → eqb_ℤ a a ≡ true
eqb_ℤ_refl a = ground arith

reset-IsToday :
    (g : FaucetGlobalState) (day now : ℤ) → IsToday g (reset_global_if_needed g day now) day
unfolding reset_global_if_needed
reset-IsToday g day now = elim (Bool-cases (eqb_ℤ g.current_day_index day)) [
  | inl e ↦ ground arith
  | inr e ↦ ground (arith, eqb_ℤ_refl day)
]

record IsUserToday (u u' : FaucetUserState) (owner : Pubkey) (day : ℤ) : Type 0 where
  owned : u'.owner ≡ owner
  today : eqb_ℤ u'.current_day_index day ≡ true
  claw : u'.claw_claimed_today ≡ user_claimed_on u day u.claw_claimed_today
  usdc : u'.usdc_claimed_today ≡ user_claimed_on u day u.usdc_claimed_today

user_reset :
    (u u' : FaucetUserState) (owner : Pubkey) (day now : ℤ)
    → initialize_or_reset_user_if_needed u owner day now ≡ ok u'
    → IsUserToday u u' owner day
unfolding initialize_or_reset_user_if_needed
user_reset u u' owner day now h = ground (arith, eqb_ℤ_refl day)

-- A claim on `day` by a user whose counters were `u` and are `u'`.
pub record IsCapped (a a' : ClaimFaucet) (args : FaucetClaimArgs) (day : ℤ) (u u' : FaucetUserState)
    : Type 0 where
  pub enabled : a.faucet_config.value.enabled ≡ true
  pub positive : 0 < args.claw_amount + args.usdc_amount
  pub claw_claim : args.claw_amount ≤ a.faucet_config.value.max_claw_per_claim
  pub usdc_claim : args.usdc_amount ≤ a.faucet_config.value.max_usdc_per_claim
  pub owner : u'.owner ≡ a.user
  pub user_day : eqb_ℤ u'.current_day_index day ≡ true
  pub global_day : eqb_ℤ a'.faucet_global_state.value.current_day_index day ≡ true
  pub user_claw :
      u'.claw_claimed_today ≡ user_claimed_on u day u.claw_claimed_today + args.claw_amount
  pub user_usdc :
      u'.usdc_claimed_today ≡ user_claimed_on u day u.usdc_claimed_today + args.usdc_amount
  pub user_claw_cap : u'.claw_claimed_today ≤ a.faucet_config.value.max_claw_per_wallet_per_day
  pub user_usdc_cap : u'.usdc_claimed_today ≤ a.faucet_config.value.max_usdc_per_wallet_per_day
  pub global_claw :
      a'.faucet_global_state.value.claw_claimed_today
      ≡ claimed_on a.faucet_global_state.value.current_day_index day
          a.faucet_global_state.value.claw_claimed_today
        + args.claw_amount
  pub global_usdc :
      a'.faucet_global_state.value.usdc_claimed_today
      ≡ claimed_on a.faucet_global_state.value.current_day_index day
          a.faucet_global_state.value.usdc_claimed_today
        + args.usdc_amount
  pub global_claw_cap :
      a'.faucet_global_state.value.claw_claimed_today
      ≤ a.faucet_config.value.max_claw_global_per_day
  pub global_usdc_cap :
      a'.faucet_global_state.value.usdc_claimed_today
      ≤ a.faucet_config.value.max_usdc_global_per_day

-- The same from the counters `v` and `g` after their reset.
record IsAdded (a a' : ClaimFaucet) (args : FaucetClaimArgs) (g : FaucetGlobalState)
    (v u' : FaucetUserState) : Type 0 where
  enabled : a.faucet_config.value.enabled ≡ true
  positive : 0 < args.claw_amount + args.usdc_amount
  claw_claim : args.claw_amount ≤ a.faucet_config.value.max_claw_per_claim
  usdc_claim : args.usdc_amount ≤ a.faucet_config.value.max_usdc_per_claim
  owner : u'.owner ≡ v.owner
  user_day : u'.current_day_index ≡ v.current_day_index
  global_day : a'.faucet_global_state.value.current_day_index ≡ g.current_day_index
  user_claw : u'.claw_claimed_today ≡ v.claw_claimed_today + args.claw_amount
  user_usdc : u'.usdc_claimed_today ≡ v.usdc_claimed_today + args.usdc_amount
  user_claw_cap : u'.claw_claimed_today ≤ a.faucet_config.value.max_claw_per_wallet_per_day
  user_usdc_cap : u'.usdc_claimed_today ≤ a.faucet_config.value.max_usdc_per_wallet_per_day
  global_claw :
      a'.faucet_global_state.value.claw_claimed_today ≡ g.claw_claimed_today + args.claw_amount
  global_usdc :
      a'.faucet_global_state.value.usdc_claimed_today ≡ g.usdc_claimed_today + args.usdc_amount
  global_claw_cap :
      a'.faucet_global_state.value.claw_claimed_today
      ≤ a.faucet_config.value.max_claw_global_per_day
  global_usdc_cap :
      a'.faucet_global_state.value.usdc_claimed_today
      ≤ a.faucet_config.value.max_usdc_global_per_day

module _ (r : Runtime) (a a' : ClaimFaucet) (args : FaucetClaimArgs) (l l' : Ledger) (day : ℤ)
    (v u' : FaucetUserState) where
  added :
      claim_faucet r a args l ≡ ok (a', l')
      → current_day_index r.now ≡ ok day
      → a'.faucet_user_state.value ≡ some u'
      → initialize_or_reset_user_if_needed
          (loaded a.faucet_user_state.value blank_user_state)
          a.user
          day
          r.now
        ≡ ok v
      → IsAdded a a' args (reset_global_if_needed a.faucet_global_state.value day r.now) v u'
  unfolding claim_faucet checked_add_u64
  added h d e f = ground arith

capped :
    (a a' : ClaimFaucet) (args : FaucetClaimArgs) (day : ℤ) (g : FaucetGlobalState)
    (u v u' : FaucetUserState)
    → IsToday a.faucet_global_state.value g day
    → IsUserToday u v a.user day
    → IsAdded a a' args g v u'
    → IsCapped a a' args day u u'
capped a a' args day g u v u' p q s = record {
  enabled = s.enabled;
  positive = s.positive;
  claw_claim = s.claw_claim;
  usdc_claim = s.usdc_claim;
  owner = s.owner ∙ q.owned;
  user_day = ap (λ d. eqb_ℤ d day) s.user_day ∙ q.today;
  global_day = ap (λ d. eqb_ℤ d day) s.global_day ∙ p.today;
  user_claw = s.user_claw ∙ ap (λ n. n + args.claw_amount) q.claw;
  user_usdc = s.user_usdc ∙ ap (λ n. n + args.usdc_amount) q.usdc;
  user_claw_cap = s.user_claw_cap;
  user_usdc_cap = s.user_usdc_cap;
  global_claw = s.global_claw ∙ ap (λ n. n + args.claw_amount) p.claw;
  global_usdc = s.global_usdc ∙ ap (λ n. n + args.usdc_amount) p.usdc;
  global_claw_cap = s.global_claw_cap;
  global_usdc_cap = s.global_usdc_cap;
}

module _ (r : Runtime) (a a' : ClaimFaucet) (args : FaucetClaimArgs) (l l' : Ledger) where
  reset_succeeds :
      (day : ℤ)
      → claim_faucet r a args l ≡ ok (a', l')
      → current_day_index r.now ≡ ok day
      → (v : FaucetUserState) × (initialize_or_reset_user_if_needed
            (loaded a.faucet_user_state.value blank_user_state)
            a.user
            day
            r.now
          ≡ ok v)
  unfolding claim_faucet
  reset_succeeds day h d =
      let u = loaded a.faucet_user_state.value blank_user_state in
      elim (Result-cases (initialize_or_reset_user_if_needed u a.user day r.now)) [
        | inl done ↦ done
        | inr (c, f) ↦ absurd (ground arith)
      ]

  -- A claim is of a positive amount within the limits per claim, while the faucet is enabled; it adds to
  -- what the user and all users claimed on that day, starting from zero where the counters were of
  -- another day or the user had none, and leaves both within the limits of the day. The counters
  -- are then those of that day and that user.
  pub claim_faucet-IsCapped :
      (day : ℤ) (u' : FaucetUserState)
      → claim_faucet r a args l ≡ ok (a', l')
      → current_day_index r.now ≡ ok day
      → a'.faucet_user_state.value ≡ some u'
      → IsCapped a a' args day (loaded a.faucet_user_state.value blank_user_state) u'
  claim_faucet-IsCapped day u' h d e =
      let u = loaded a.faucet_user_state.value blank_user_state in
      let (v, f) = reset_succeeds day h d in
      capped a a' args day (reset_global_if_needed a.faucet_global_state.value day r.now) u v u'
        (reset-IsToday a.faucet_global_state.value day r.now) (user_reset u v a.user day r.now f)
        (added r a a' args l l' day v u' h d e f)

  pays :
      claim_faucet r a args l ≡ ok (a', l')
      → (pay_faucet_claim r a args l ≡ ok l')
        × (a.user_claw_token.value.owner ≡ a.user)
        × (a.user_usdc_token.value.owner ≡ a.user)
  unfolding claim_faucet
  pays h = ground arith

  claim_calls :
      pay_faucet_claim r a args l ≡ ok l'
      → (l₁ : Ledger) × ((if ltb 0 args.claw_amount
            then r.transfer_checked a.faucet_claw_vault.key a.claw_mint.key a.user_claw_token.key
                a.pool_authority args.claw_amount a.claw_mint.value.decimals l
            else ok l)
          ≡ ok l₁)
        × ((if ltb 0 args.usdc_amount
              then r.transfer_checked a.faucet_usdc_vault.key a.usdc_mint.key a.user_usdc_token.key
                  a.pool_authority args.usdc_amount a.usdc_mint.value.decimals l₁
              else ok l₁)
            ≡ ok l')
  unfolding pay_faucet_claim
  claim_calls h = >>=-eq-ok _ _ h

  paid :
      (laws : TokenLaws r) (k : Pubkey)
      → pay_faucet_claim r a args l ≡ ok l'
      → (balance l' k
            + at k a.faucet_claw_vault.key args.claw_amount
            + at k a.faucet_usdc_vault.key args.usdc_amount
          ≡ balance l k
            + at k a.user_claw_token.key args.claw_amount
            + at k a.user_usdc_token.key args.usdc_amount)
        × (supply l' k ≡ supply l k)
  paid laws k h =
      let (l₁, e₁, e₂) = claim_calls h in
      omega (
        arith,
        optional_transfer r laws _ _ _ _ _ _ k l l₁ e₁,
        optional_transfer r laws _ _ _ _ _ _ k l₁ l' e₂,
      )

  -- A claim pays the two amounts from the faucet's vaults to token accounts that the user owns; no other
  -- balance changes, and no supply.
  pub claim_faucet-balances :
      (laws : TokenLaws r)
      → claim_faucet r a args l ≡ ok (a', l')
      → (a.user_claw_token.value.owner ≡ a.user)
        × (a.user_usdc_token.value.owner ≡ a.user)
        × ((k : Pubkey)
            → (balance l' k
                  + at k a.faucet_claw_vault.key args.claw_amount
                  + at k a.faucet_usdc_vault.key args.usdc_amount
                ≡ balance l k
                  + at k a.user_claw_token.key args.claw_amount
                  + at k a.user_usdc_token.key args.usdc_amount)
              × (supply l' k ≡ supply l k))
  claim_faucet-balances laws h = let (p, c, u) = pays h in (c, u, λ k. paid laws k p)
