-- ===== src/Attestation/Protocol/Access.antt =====
-- Who is kept out: pauses and revocations of programs/clawfarm-attestation/src/instructions/admin.rs.
use clawfarm_masterpool.Prelude.{ℕ, ◌≡◌, ◌≢◌, true, List, ok, arith}
use clawfarm_masterpool.Runtime.{Ledger, Runtime}
use clawfarm_masterpool.Attestation.Types.{SubmitReceiptArgs}
use clawfarm_masterpool.Attestation.Receipt.{SubmitReceipt, submit_receipt}
use clawfarm_masterpool.Attestation.Utils.{InstructionsSysvar}
use clawfarm_masterpool.Attestation.Admin.{
  RevokeProviderSigner, revoke_provider_signer, SetPause, set_pause,
}

-- A revoked signer submits nothing: with the registration that a revocation left, no receipt is submitted, by
-- anyone, at any time.
pub revoke-stops :
    (r : Runtime) (hash : List ℕ → ℕ) (sysvar : InstructionsSysvar) (a a' : RevokeProviderSigner)
    (b : SubmitReceipt) (args : SubmitReceiptArgs) (l : Ledger) (done : SubmitReceipt × Ledger)
    → revoke_provider_signer a ≡ ok a'
    → b.provider_signer.value ≡ a'.provider_signer.value
    → submit_receipt r hash sysvar b args l ≢ ok done
unfolding revoke_provider_signer submit_receipt
revoke-stops r hash sysvar a a' b args l done h e g = ground arith

-- While the program is paused no receipt is submitted, by anyone, at any time.
pub pause-stops :
    (r : Runtime) (hash : List ℕ → ℕ) (sysvar : InstructionsSysvar) (a a' : SetPause)
    (b : SubmitReceipt) (args : SubmitReceiptArgs) (l : Ledger) (done : SubmitReceipt × Ledger)
    → set_pause a true ≡ ok a'
    → b.config.value ≡ a'.config.value
    → submit_receipt r hash sysvar b args l ≢ ok done
unfolding set_pause submit_receipt
pause-stops r hash sysvar a a' b args l done h e g = ground arith
