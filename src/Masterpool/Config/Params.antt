-- ===== src/Masterpool/Config/Params.antt =====
-- Governance parameters in programs/clawfarm-masterpool/src/instructions/config.rs.
use clawfarm_masterpool.Prelude.{Bool, ok, ◌>>◌, ◌==◌}
use clawfarm_masterpool.Runtime.{Outcome, AccountInfo, Account, Runtime, Seeds, signer, seeds_at}
use clawfarm_masterpool.Masterpool.Error.{ErrorCode}
use clawfarm_masterpool.Masterpool.Types.{Phase1ConfigParams}
use clawfarm_masterpool.Masterpool.Accounts.{GlobalConfig}
use clawfarm_masterpool.Masterpool.Utils.{require, validate_phase1_params}

unfoldable pub apply_phase1_params : GlobalConfig → Phase1ConfigParams → GlobalConfig
apply_phase1_params config params = record config {
  exchange_rate_claw_per_usdc_e6 = params.exchange_rate_claw_per_usdc_e6;
  provider_stake_usdc = params.provider_stake_usdc;
  provider_usdc_share_bps = params.provider_usdc_share_bps;
  treasury_usdc_share_bps = params.treasury_usdc_share_bps;
  user_claw_share_bps = params.user_claw_share_bps;
  provider_claw_share_bps = params.provider_claw_share_bps;
  lock_days = params.lock_days;
  provider_slash_claw_amount = params.provider_slash_claw_amount;
  challenger_reward_bps = params.challenger_reward_bps;
  burn_bps = params.burn_bps;
  challenge_bond_claw_amount = params.challenge_bond_claw_amount;
}

-- The accounts of `UpdateConfig` and of `SetPauseFlags`, which are the same.
pub record UpdateConfig : Type 0 where
  pub config : Account GlobalConfig
  pub admin_authority : AccountInfo

-- The constraints of either struct, in the order of its fields.
unfoldable pub check_update_config : Runtime → UpdateConfig → Outcome (Unit {0})
check_update_config r a = do
  seeds_at r r.masterpool_id Seeds.config a.config.key
  require (a.config.value.admin_authority == a.admin_authority.key) ErrorCode.unauthorized_admin
  signer a.admin_authority

unfoldable pub update_config : Runtime → UpdateConfig → Phase1ConfigParams → Outcome UpdateConfig
unfolding apply_phase1_params
update_config r a params = do
  validate_phase1_params params
  let config = apply_phase1_params a.config.value params
  ok (record a { config = record a.config { value = record config { updated_at = r.now } } })

unfoldable pub set_pause_flags :
    Runtime → UpdateConfig → Bool → Bool → Bool → Bool → Outcome UpdateConfig
set_pause_flags r a receipt_recording challenge_processing finalization claims = ok (record a {
  config = record a.config {
    value = record a.config.value {
      pause_receipt_recording = receipt_recording;
      pause_challenge_processing = challenge_processing;
      pause_finalization = finalization;
      pause_claims = claims;
      updated_at = r.now;
    };
  };
})
