-- ===== src/Masterpool/Constants.antt =====
-- programs/clawfarm-masterpool/src/constants.rs, but for the seeds, which are `Runtime.Seeds`.
use clawfarm_masterpool.Prelude.{ℕ, ◌*◌, ◌^◌}

abbrev pub bps_scale : ℕ
bps_scale = 1_000

abbrev pub rate_scale : ℕ
rate_scale = 1_000_000

abbrev pub claw_decimals : ℕ
claw_decimals = 6

abbrev pub usdc_decimals : ℕ
usdc_decimals = 6

abbrev pub genesis_total_supply : ℕ
genesis_total_supply = 1_000_000_000 * rate_scale

abbrev pub max_receipt_usdc_atomic : ℕ
max_receipt_usdc_atomic = 1_000_000_000 * rate_scale

abbrev pub default_faucet_max_claw_per_claim : ℕ
default_faucet_max_claw_per_claim = 10 * rate_scale

abbrev pub default_faucet_max_usdc_per_claim : ℕ
default_faucet_max_usdc_per_claim = 10 * rate_scale

abbrev pub default_faucet_max_claw_per_wallet_per_day : ℕ
default_faucet_max_claw_per_wallet_per_day = 50 * rate_scale

abbrev pub default_faucet_max_usdc_per_wallet_per_day : ℕ
default_faucet_max_usdc_per_wallet_per_day = 50 * rate_scale

abbrev pub default_faucet_max_claw_global_per_day : ℕ
default_faucet_max_claw_global_per_day = 50_000 * rate_scale

abbrev pub default_faucet_max_usdc_global_per_day : ℕ
default_faucet_max_usdc_global_per_day = 50_000 * rate_scale

abbrev pub seconds_per_utc_day : ℕ
seconds_per_utc_day = 86_400

abbrev pub attestation_receipt_status_finalized : ℕ
attestation_receipt_status_finalized = 2

abbrev pub attestation_resolution_accepted : ℕ
attestation_resolution_accepted = 1

abbrev pub attestation_resolution_rejected : ℕ
attestation_resolution_rejected = 2

abbrev pub attestation_resolution_receipt_invalidated : ℕ
attestation_resolution_receipt_invalidated = 3

abbrev pub attestation_resolution_signer_revoked : ℕ
attestation_resolution_signer_revoked = 4

-- The bounds of the machine integers.
abbrev pub u64_mod : ℕ
u64_mod = 2 ^ 64

abbrev pub i64_bound : ℕ
i64_bound = 2 ^ 63

abbrev pub i128_bound : ℕ
i128_bound = 2 ^ 127
