-- ===== src/Masterpool/Receipt/Progress.antt =====
-- When `record_mining_from_receipt` succeeds.
use clawfarm_masterpool.Prelude.{
  ℕ, ◌+◌, ◌-◌, ◌*◌, ◌/◌, ◌≤◌, ◌<◌, ◌≡◌, inl, inr, true, false, some, ok, ℤ, pos, pos_part, ◌+ℤ◌,
  arith, Result-cases, lt→ltb, le→leb,
}
use clawfarm_masterpool.Runtime.{Ledger, Runtime, loaded}
use clawfarm_masterpool.Masterpool.Constants.{
  bps_scale, rate_scale, max_receipt_usdc_atomic, u64_mod, i128_bound,
}
use clawfarm_masterpool.Masterpool.Types.{ProviderStatus, RewardAccountKind, provider_status_code}
use clawfarm_masterpool.Masterpool.Accounts.{RewardAccount}
use clawfarm_masterpool.Masterpool.Utils.{
  calculate_bps_amount, calculate_claw_amount, checked_add_u64, checked_sub_u64, checked_add_i128,
  require_attestation_caller, is_i128, initialize_reward_account,
}
use clawfarm_masterpool.Masterpool.Receipt.{
  RecordMiningFromReceipt, record_mining_from_receipt, provider_debt_offset, add_provider_pending,
  blank_reward_account,
}
use clawfarm_masterpool.Masterpool.Config.Governance.{params_of}
use clawfarm_masterpool.Masterpool.Utils.Bounds.{IsValid, bps-le}

-- What the checks of the instruction ask of a charge of `x`.
pub record IsAdmitted (a : RecordMiningFromReceipt) (x : ℕ) : Type 0 where
  pub caller : require_attestation_caller a.config.value a.attestation_config ≡ ok tt
  pub running : a.config.value.pause_receipt_recording ≡ false
  pub positive : 0 < x
  pub supported : x ≤ max_receipt_usdc_atomic
  pub payer : a.payer_usdc_token.value.owner ≡ a.payer_user
  pub mint : a.payer_usdc_token.value.mint ≡ a.config.value.usdc_mint
  pub delegate : a.payer_usdc_token.value.delegate ≡ some a.payment_delegate.key
  pub allowance : x ≤ a.payer_usdc_token.value.delegated_amount
  pub active : a.provider_account.value.status ≡ provider_status_code ProviderStatus.active

-- Room in the counters of the provider and of the two reward accounts `u` and `p` for a charge of `x`.
pub record HasRoom (a : RecordMiningFromReceipt) (x : ℕ) (u p : RewardAccount) : Type 0 where
  pub user :
      u.pending_claw_total + x * a.config.value.exchange_rate_claw_per_usdc_e6 / rate_scale
      < u64_mod
  pub provider :
      p.pending_claw_total + x * a.config.value.exchange_rate_claw_per_usdc_e6 / rate_scale
      < u64_mod
  pub pending : a.provider_account.value.pending_provider_usdc + x < u64_mod
  pub receipts : a.provider_account.value.unsettled_receipt_count + 1 < u64_mod
  pub net_low : is_i128 a.provider_account.value.claw_net_position ≡ true
  pub net_high : pos_part a.provider_account.value.claw_net_position + u64_mod < i128_bound

bps_fits :
    (x bps : ℕ)
    → x * bps / bps_scale < u64_mod
    → calculate_bps_amount x bps ≡ ok (x * bps / bps_scale)
unfolding calculate_bps_amount
bps_fits x bps h = rw (lt→ltb _ _ h)

claw_fits :
    (x rate : ℕ)
    → x * rate / rate_scale < u64_mod
    → calculate_claw_amount x rate ≡ ok (x * rate / rate_scale)
unfolding calculate_claw_amount
claw_fits x rate h = rw (lt→ltb _ _ h)

add_fits : (a b : ℕ) → a + b < u64_mod → checked_add_u64 a b ≡ ok (a + b)
unfolding checked_add_u64
add_fits a b h = rw (lt→ltb _ _ h)

sub_fits : (a b : ℕ) → b ≤ a → checked_sub_u64 a b ≡ ok (a - b)
unfolding checked_sub_u64
sub_fits a b h = rw (le→leb _ _ h)

net_fits :
    (n : ℤ) (c : ℕ)
    → is_i128 n ≡ true
    → pos_part n + u64_mod < i128_bound
    → c < u64_mod
    → is_i128 (n +ℤ pos c) ≡ true
unfolding ◌+ℤ◌
net_fits n c h k b = ground arith

offset-le : (n : ℤ) (c : ℕ) → provider_debt_offset n c ≤ c
unfolding provider_debt_offset
offset-le n c = ground arith

add_provider_fits :
    (p : RewardAccount) (x : ℕ) (now : ℤ)
    → p.pending_claw_total + x < u64_mod
    → (p' : RewardAccount) × (add_provider_pending p x now ≡ ok p')
unfolding add_provider_pending checked_add_u64
add_provider_fits p x now h = elim (Result-cases (add_provider_pending p x now)) [
  | inl done ↦ done
  | inr (c, e) ↦ absurd (ground arith)
]

-- Where each step gives a value, the instruction gives one.
record Steps (r : Runtime) (a : RecordMiningFromReceipt) (x : ℕ) (l l₁ l' : Ledger)
    (u p p' : RewardAccount) (t c uc : ℕ) (net : ℤ) : Type 0 where
  treasury : calculate_bps_amount x a.config.value.treasury_usdc_share_bps ≡ ok t
  share : checked_sub_u64 x t ≡ ok (x - t)
  first :
      r.transfer_checked a.payer_usdc_token.key a.usdc_mint.key a.treasury_usdc_vault.key
        a.payment_delegate.key t a.usdc_mint.value.decimals l
      ≡ ok l₁
  second :
      r.transfer_checked a.payer_usdc_token.key a.usdc_mint.key a.provider_pending_usdc_vault.key
        a.payment_delegate.key
        (x - t)
        a.usdc_mint.value.decimals
        l₁
      ≡ ok l'
  reward : calculate_claw_amount x a.config.value.exchange_rate_claw_per_usdc_e6 ≡ ok c
  user_claw : calculate_bps_amount c a.config.value.user_claw_share_bps ≡ ok uc
  provider_claw : checked_sub_u64 c uc ≡ ok (c - uc)
  user_account :
      initialize_reward_account
        (loaded a.user_reward_account.value blank_reward_account)
        a.payer_user
        RewardAccountKind.user
        r.now
      ≡ ok u
  provider_account :
      initialize_reward_account a.provider_reward_account.value
        a.provider_account.value.provider_wallet RewardAccountKind.provider r.now
      ≡ ok p
  user_pending : checked_add_u64 u.pending_claw_total uc ≡ ok (u.pending_claw_total + uc)
  locked :
      checked_sub_u64
        (c - uc)
        (provider_debt_offset a.provider_account.value.claw_net_position (c - uc))
      ≡ ok (c - uc - provider_debt_offset a.provider_account.value.claw_net_position (c - uc))
  provider_pending :
      add_provider_pending p
        (c - uc - provider_debt_offset a.provider_account.value.claw_net_position (c - uc))
        r.now
      ≡ ok p'
  net_position : checked_add_i128 a.provider_account.value.claw_net_position (pos (c - uc)) ≡ ok net
  pending :
      checked_add_u64 a.provider_account.value.pending_provider_usdc (x - t)
      ≡ ok (a.provider_account.value.pending_provider_usdc + (x - t))
  receipts :
      checked_add_u64 a.provider_account.value.unsettled_receipt_count 1
      ≡ ok (a.provider_account.value.unsettled_receipt_count + 1)

module _ (r : Runtime) (a : RecordMiningFromReceipt) (x : ℕ) (l l₁ l' : Ledger)
    (u p p' : RewardAccount) (t c uc : ℕ) (net : ℤ) where
  runs_through :
      IsAdmitted a x
      → Steps r a x l l₁ l' u p p' t c uc net
      → (a' : RecordMiningFromReceipt) × (record_mining_from_receipt r a x l ≡ ok (a', l'))
  unfolding record_mining_from_receipt
  runs_through g s = elim (Result-cases (record_mining_from_receipt r a x l)) [
    | inl ((a', l₂), h) ↦ (a', ground arith)
    | inr (f, h) ↦ absurd (ground arith)
  ]

module _ (r : Runtime) (a : RecordMiningFromReceipt) (x : ℕ) (l l₁ l' : Ledger)
    (u p : RewardAccount) where
  -- With valid parameters in force a charge that passes the checks is recorded: where the two reward accounts
  -- are the parties', the counters have room for it and the token program accepts the two transfers of
  -- the treasury's part and the rest, the instruction succeeds with the ledger of the second.
  pub record_mining_succeeds :
      IsValid (params_of a.config.value)
      → IsAdmitted a x
      → initialize_reward_account
          (loaded a.user_reward_account.value blank_reward_account)
          a.payer_user
          RewardAccountKind.user
          r.now
        ≡ ok u
      → initialize_reward_account a.provider_reward_account.value
          a.provider_account.value.provider_wallet RewardAccountKind.provider r.now
        ≡ ok p
      → HasRoom a x u p
      → r.transfer_checked a.payer_usdc_token.key a.usdc_mint.key a.treasury_usdc_vault.key
          a.payment_delegate.key
          (x * a.config.value.treasury_usdc_share_bps / bps_scale)
          a.usdc_mint.value.decimals
          l
        ≡ ok l₁
      → r.transfer_checked a.payer_usdc_token.key a.usdc_mint.key a.provider_pending_usdc_vault.key
          a.payment_delegate.key
          (x - x * a.config.value.treasury_usdc_share_bps / bps_scale)
          a.usdc_mint.value.decimals
          l₁
        ≡ ok l'
      → (a' : RecordMiningFromReceipt) × (record_mining_from_receipt r a x l ≡ ok (a', l'))
  unfolding params_of checked_add_i128
  record_mining_succeeds v g iu ip room t₁ t₂ =
      let c = x * a.config.value.exchange_rate_claw_per_usdc_e6 / rate_scale in
      let uc = c * a.config.value.user_claw_share_bps / bps_scale in
      let net = a.provider_account.value.claw_net_position in
      let ht = bps-le x a.config.value.treasury_usdc_share_bps (omega arith) in
      let hu = bps-le c a.config.value.user_claw_share_bps (omega arith) in
      let hn = net_fits net (c - uc) room.net_low room.net_high (omega arith) in
      let ho = offset-le net (c - uc) in
      let (p', hp) =
        add_provider_fits p (c - uc - provider_debt_offset net (c - uc)) r.now (omega arith) in
      runs_through r a x l l₁ l' u p p' _ c uc (net +ℤ pos (c - uc)) g (record {
        treasury = bps_fits _ _ (omega arith);
        share = sub_fits _ _ ht;
        first = t₁;
        second = t₂;
        reward = claw_fits _ _ (omega arith);
        user_claw = bps_fits _ _ (omega arith);
        provider_claw = sub_fits _ _ hu;
        user_account = iu;
        provider_account = ip;
        user_pending = add_fits _ _ (omega arith);
        locked = sub_fits _ _ ho;
        provider_pending = hp;
        net_position = rw hn;
        pending = add_fits _ _ (omega arith);
        receipts = add_fits _ _ (omega arith);
      })
