-- ===== src/Masterpool/Faucet/Daily.antt =====
-- The day counters of programs/clawfarm-masterpool/src/instructions/faucet.rs.
use clawfarm_masterpool.Prelude.{
  suc, ◌/◌, ok, ◌>>◌, ℤ, pos, negsuc, ◌-ℤ◌, eqb_ℤ, ◌==◌, if◌then◌else◌,
}
use clawfarm_masterpool.Runtime.{Outcome, Pubkey, default_pubkey}
use clawfarm_masterpool.Masterpool.Error.{ErrorCode}
use clawfarm_masterpool.Masterpool.Constants.{seconds_per_utc_day}
use clawfarm_masterpool.Masterpool.Types.{FaucetLimits}
use clawfarm_masterpool.Masterpool.Accounts.{FaucetConfig, FaucetGlobalState, FaucetUserState}
use clawfarm_masterpool.Masterpool.Utils.{require}

-- `checked_div` by the seconds of a day, which is not zero; division of an `i64` rounds towards zero.
unfoldable pub current_day_index : ℤ → Outcome ℤ
current_day_index (pos n) = ok (pos (n / seconds_per_utc_day))
current_day_index (negsuc n) = ok (pos 0 -ℤ pos (suc n / seconds_per_utc_day))

unfoldable pub apply_faucet_limits : FaucetConfig → FaucetLimits → FaucetConfig
apply_faucet_limits config limits = record config {
  max_claw_per_claim = limits.max_claw_per_claim;
  max_usdc_per_claim = limits.max_usdc_per_claim;
  max_claw_per_wallet_per_day = limits.max_claw_per_wallet_per_day;
  max_usdc_per_wallet_per_day = limits.max_usdc_per_wallet_per_day;
  max_claw_global_per_day = limits.max_claw_global_per_day;
  max_usdc_global_per_day = limits.max_usdc_global_per_day;
}

unfoldable pub reset_global_if_needed : FaucetGlobalState → ℤ → ℤ → FaucetGlobalState
reset_global_if_needed global day_index now =
    if eqb_ℤ global.current_day_index day_index then global else record global {
      current_day_index = day_index;
      claw_claimed_today = 0;
      usdc_claimed_today = 0;
      updated_at = now;
    }

unfoldable pub initialize_or_reset_user_if_needed :
    FaucetUserState → Pubkey → ℤ → ℤ → Outcome FaucetUserState
initialize_or_reset_user_if_needed user_state owner day_index now =
    if user_state.owner == default_pubkey
    then ok (record {
      owner = owner;
      current_day_index = day_index;
      claw_claimed_today = 0;
      usdc_claimed_today = 0;
      created_at = now;
      updated_at = now;
    })
    else (do
      require (user_state.owner == owner) ErrorCode.invalid_faucet_user_state
      ok (
          if eqb_ℤ user_state.current_day_index day_index then user_state else record user_state {
            current_day_index = day_index;
            claw_claimed_today = 0;
            usdc_claimed_today = 0;
            updated_at = now;
          }))
