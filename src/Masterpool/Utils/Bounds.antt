-- ===== src/Masterpool/Utils/Bounds.antt =====
-- Which governance parameters are accepted, and that no supported charge overflows under them.
use clawfarm_masterpool.Prelude.{ℕ, ◌+◌, ◌*◌, ◌/◌, ◌≤◌, ◌<◌, ◌≡◌, ◌↔◌, ok, arith}
use clawfarm_masterpool.Masterpool.Constants.{
  bps_scale, rate_scale, max_receipt_usdc_atomic, u64_mod,
}
use clawfarm_masterpool.Masterpool.Types.{FaucetLimits, Phase1ConfigParams}
use clawfarm_masterpool.Masterpool.Utils.Arith.{calculate_bps_amount, calculate_claw_amount}
use clawfarm_masterpool.Masterpool.Utils.Checks.{
  validate_phase1_params, validate_supported_receipt_charge, validate_faucet_limits,
}

-- A share of at most the whole is at most the whole.
pub bps-le : (x bps : ℕ) → bps ≤ bps_scale → x * bps / bps_scale ≤ x
bps-le x bps h = let m : x * bps ≤ x * 1000 = grind arith in omega arith

pub claw_mono : (x y rate : ℕ) → x ≤ y → x * rate / rate_scale ≤ y * rate / rate_scale
claw_mono x y rate h = let m : x * rate ≤ y * rate = grind arith in omega arith

-- What the parameters must satisfy: positive amounts, splits that add up, and a reward for the largest
-- supported charge that is a `u64`.
pub record IsValid (p : Phase1ConfigParams) : Type 0 where
  pub rate : 0 < p.exchange_rate_claw_per_usdc_e6
  pub stake : 0 < p.provider_stake_usdc
  pub lock : 0 < p.lock_days
  pub slash : 0 < p.provider_slash_claw_amount
  pub bond : 0 < p.challenge_bond_claw_amount
  pub usdc_split : p.provider_usdc_share_bps + p.treasury_usdc_share_bps ≡ bps_scale
  pub claw_split : p.user_claw_share_bps + p.provider_claw_share_bps ≡ bps_scale
  pub challenge_split : p.challenger_reward_bps + p.burn_bps ≡ bps_scale
  pub reward : max_receipt_usdc_atomic * p.exchange_rate_claw_per_usdc_e6 / rate_scale < u64_mod

checked_of : (p : Phase1ConfigParams) → validate_phase1_params p ≡ ok tt → IsValid p
unfolding validate_phase1_params calculate_claw_amount
checked_of p h = ground arith

accepted_of :
    (p : Phase1ConfigParams)
    → p.provider_slash_claw_amount < u64_mod
    → IsValid p
    → validate_phase1_params p ≡ ok tt
unfolding validate_phase1_params
accepted_of p s v = ground (
  arith,
  bps-le max_receipt_usdc_atomic p.treasury_usdc_share_bps,
  bps-le (max_receipt_usdc_atomic * p.exchange_rate_claw_per_usdc_e6 / rate_scale)
      p.user_claw_share_bps,
  bps-le p.provider_slash_claw_amount p.challenger_reward_bps,
)

-- Governance parameters, whose slash amount is a `u64`, are accepted exactly if the five amounts are
-- positive, each of the three splits adds up to the scale, and the CLAW reward of the largest
-- supported charge is a `u64`.
pub validate_phase1_params_iff :
    (p : Phase1ConfigParams)
    → p.provider_slash_claw_amount < u64_mod
    → (validate_phase1_params p ≡ ok tt) ↔ IsValid p
validate_phase1_params_iff p s = (checked_of p, accepted_of p s)

-- Under accepted parameters the shares of every supported charge are computed without an error: the
-- treasury's part is at most the charge, the reward is computed, the user's part is at most the
-- reward; and the challenger's part of the slash is at most the slash.
pub validate_phase1_params-no_overflow :
    (p : Phase1ConfigParams) (x : ℕ)
    → validate_phase1_params p ≡ ok tt
    → validate_supported_receipt_charge x ≡ ok tt
    → p.provider_slash_claw_amount < u64_mod
    → ((t : ℕ) × (calculate_bps_amount x p.treasury_usdc_share_bps ≡ ok t) × (t ≤ x))
      × ((c : ℕ) × (calculate_claw_amount x p.exchange_rate_claw_per_usdc_e6 ≡ ok c)
          × ((u : ℕ) × (calculate_bps_amount c p.user_claw_share_bps ≡ ok u) × (u ≤ c)))
      × ((g : ℕ) × (calculate_bps_amount p.provider_slash_claw_amount p.challenger_reward_bps
            ≡ ok g)
          × (g ≤ p.provider_slash_claw_amount))
unfolding validate_supported_receipt_charge calculate_bps_amount calculate_claw_amount
validate_phase1_params-no_overflow p x h hx s =
    let v = checked_of p h in
    let c = x * p.exchange_rate_claw_per_usdc_e6 / rate_scale in
    let ht = bps-le x p.treasury_usdc_share_bps (omega arith) in
    let hu = bps-le c p.user_claw_share_bps (omega arith) in
    let hg = bps-le p.provider_slash_claw_amount p.challenger_reward_bps (omega arith) in
    let top : x ≤ max_receipt_usdc_atomic = ground arith in
    let hc = claw_mono x max_receipt_usdc_atomic p.exchange_rate_claw_per_usdc_e6 top in
    (
      (x * p.treasury_usdc_share_bps / bps_scale, ground arith, ht),
      (c, ground arith, (c * p.user_claw_share_bps / bps_scale, ground arith, hu)),
      (p.provider_slash_claw_amount * p.challenger_reward_bps / bps_scale, ground arith, hg),
    )

-- Faucet limits are accepted exactly if all six are positive and each token's limits do not fall from
-- the claim over the wallet's day to the day of all wallets.
pub validate_faucet_limits_iff :
    (m : FaucetLimits)
    → (validate_faucet_limits m ≡ ok tt) ↔ (
        (0 < m.max_claw_per_claim)
        × (0 < m.max_usdc_per_claim)
        × (m.max_claw_per_claim ≤ m.max_claw_per_wallet_per_day)
        × (m.max_claw_per_wallet_per_day ≤ m.max_claw_global_per_day)
        × (m.max_usdc_per_claim ≤ m.max_usdc_per_wallet_per_day)
        × (m.max_usdc_per_wallet_per_day ≤ m.max_usdc_global_per_day))
unfolding validate_faucet_limits
validate_faucet_limits_iff m = (λ h. ground arith, λ h. ground arith)
