-- ===== src/Attestation/Admin.antt =====
-- programs/clawfarm-attestation/src/instructions/admin.rs.
use clawfarm_masterpool.Prelude.{
  ℕ, Bool, false, not, ◌||◌, Option, some, ok, ◌>>◌, ℤ, pos, ltb_ℤ, leb_ℤ, eqb_ℤ, ◌==◌,
}
use clawfarm_masterpool.Runtime.{
  AnchorError, Outcome, Pubkey, AccountInfo, Account, Slot, Runtime, Seeds, default_pubkey, signer,
  seeds_at, vacant, same_key, ProgramData, constrain,
}
use clawfarm_masterpool.Attestation.Error.{ErrorCode}
use clawfarm_masterpool.Attestation.Types.{SignerStatus, signer_status_code, require}
use clawfarm_masterpool.Attestation.Accounts.{Config, ProviderSigner}

unfoldable pub validate_initialize_config_authorities :
    Pubkey → Pubkey → Pubkey → Outcome (Unit {0})
validate_initialize_config_authorities authority pause_authority challenge_resolver = do
  require (not (authority == default_pubkey)) ErrorCode.invalid_authority
  require (not (pause_authority == default_pubkey)) ErrorCode.invalid_pause_authority
  require (not (challenge_resolver == default_pubkey)) ErrorCode.invalid_challenge_resolver

unfoldable pub validate_provider_signer_keys : Pubkey → Pubkey → Outcome (Unit {0})
validate_provider_signer_keys signer provider_wallet = do
  require (not (signer == default_pubkey)) ErrorCode.invalid_signer
  require (not (provider_wallet == default_pubkey)) ErrorCode.invalid_provider_wallet

pub record InitializeConfig : Type 0 where
  pub initializer : AccountInfo
  pub config : Slot Config
  pub programdata_address : Option Pubkey
  pub self_program_data : Account ProgramData

-- The constraints of the struct, in the order of its fields.
unfoldable pub check_initialize_config : Runtime → InitializeConfig → Outcome (Unit {0})
check_initialize_config r a = do
  signer a.initializer
  seeds_at r r.attestation_id Seeds.config a.config.key
  vacant a.config
  require (same_key a.programdata_address a.self_program_data.key) ErrorCode.invalid_program_data
  require (same_key a.self_program_data.value.upgrade_authority_address a.initializer.key)
      ErrorCode.unauthorized_initializer

-- The arguments are the fields of the configuration, in its order, but for the pause.
unfoldable pub initialize_config :
    InitializeConfig → Pubkey → Pubkey → Pubkey → Pubkey → ℤ → ℤ → Outcome InitializeConfig
unfolding validate_initialize_config_authorities
initialize_config a authority pause_authority challenge_resolver masterpool_program window timeout =
    do
      require (ltb_ℤ (pos 0) window) ErrorCode.invalid_window
      require (ltb_ℤ (pos 0) timeout) ErrorCode.invalid_window
      require (not (masterpool_program == default_pubkey)) ErrorCode.invalid_masterpool_program
      validate_initialize_config_authorities authority pause_authority challenge_resolver
      ok (record a {
        config = record a.config {
          value = some (record {
            authority = authority;
            pause_authority = pause_authority;
            challenge_resolver = challenge_resolver;
            masterpool_program = masterpool_program;
            challenge_window_seconds = window;
            challenge_resolution_timeout_seconds = timeout;
            is_paused = false;
          });
        };
      })

pub record UpsertProviderSigner : Type 0 where
  pub authority : AccountInfo
  pub config : Account Config
  pub provider_signer : Slot ProviderSigner

-- The constraints of the struct, in the order of its fields, for the signer and the wallet given.
unfoldable pub check_upsert_provider_signer :
    Runtime → UpsertProviderSigner → Pubkey → Pubkey → Outcome (Unit {0})
check_upsert_provider_signer r a signer_key provider_wallet = do
  signer a.authority
  seeds_at r r.attestation_id Seeds.config a.config.key
  constrain (a.config.value.authority == a.authority.key) AnchorError.constraint_has_one
  seeds_at r r.attestation_id (Seeds.provider_signer provider_wallet signer_key)
      a.provider_signer.key

unfoldable pub upsert_provider_signer :
    UpsertProviderSigner → Pubkey → Pubkey → ℕ → ℤ → ℤ → Outcome UpsertProviderSigner
unfolding validate_provider_signer_keys
upsert_provider_signer a signer_key provider_wallet mask valid_from valid_until = do
  validate_provider_signer_keys signer_key provider_wallet
  require (not (mask == 0)) ErrorCode.invalid_attester_type_mask
  require (eqb_ℤ valid_until (pos 0) || leb_ℤ valid_from valid_until)
      ErrorCode.invalid_validity_window
  ok (record a {
    provider_signer = record a.provider_signer {
      value = some (record {
        signer = signer_key;
        provider_wallet = provider_wallet;
        attester_type_mask = mask;
        status = signer_status_code SignerStatus.active;
        valid_from = valid_from;
        valid_until = valid_until;
      });
    };
  })

pub record SetPause : Type 0 where
  pub pause_authority : AccountInfo
  pub config : Account Config

-- The constraints of the struct, in the order of its fields.
unfoldable pub check_set_pause : Runtime → SetPause → Outcome (Unit {0})
check_set_pause r a = do
  signer a.pause_authority
  seeds_at r r.attestation_id Seeds.config a.config.key
  constrain (a.config.value.pause_authority == a.pause_authority.key) AnchorError.constraint_has_one

unfoldable pub set_pause : SetPause → Bool → Outcome SetPause
set_pause a is_paused = ok (record a {
  config = record a.config { value = record a.config.value { is_paused = is_paused } };
})

pub record RevokeProviderSigner : Type 0 where
  pub authority : AccountInfo
  pub config : Account Config
  pub provider_signer : Account ProviderSigner

-- The constraints of the struct, in the order of its fields, for the signer and the wallet given.
unfoldable pub check_revoke_provider_signer :
    Runtime → RevokeProviderSigner → Pubkey → Pubkey → Outcome (Unit {0})
check_revoke_provider_signer r a signer_key provider_wallet = do
  signer a.authority
  seeds_at r r.attestation_id Seeds.config a.config.key
  constrain (a.config.value.authority == a.authority.key) AnchorError.constraint_has_one
  seeds_at r r.attestation_id (Seeds.provider_signer provider_wallet signer_key)
      a.provider_signer.key

unfoldable pub revoke_provider_signer : RevokeProviderSigner → Outcome RevokeProviderSigner
revoke_provider_signer a = ok (record a {
  provider_signer = record a.provider_signer {
    value = record a.provider_signer.value { status = signer_status_code SignerStatus.revoked };
  };
})
