-- ===== src/Attestation/Protocol/Submission.antt =====
-- What a submitted receipt rests on, and what it starts.
use clawfarm_masterpool.Prelude.{
  ℕ, ◌≡◌, ◌++◌, ◌+ℤ◌, refl, sym, ap, ◌∙◌, ◌≢◌, ◌⊎◌, inl, inr, true, false, some, List, ok, pos,
  ◌≤ℤ◌, eqb_ℤ, arith, Result-cases,
}
use clawfarm_masterpool.Runtime.{Ledger, Runtime, default_pubkey}
use clawfarm_masterpool.Attestation.Types.{
  SubmitReceiptArgs, SignerStatus, ReceiptStatus, signer_status_code, receipt_status_code,
}
use clawfarm_masterpool.Attestation.Accounts.{Receipt}
use clawfarm_masterpool.Masterpool.Accounts.{ReceiptSettlement}
use clawfarm_masterpool.Masterpool.Receipt.{RecordMiningFromReceipt, record_mining_from_receipt}
use clawfarm_masterpool.Masterpool.Receipt.Charge.{IsSnapshot, record_mining-IsSnapshot}
use clawfarm_masterpool.Attestation.Receipt.{
  SubmitReceipt, record_mining_accounts, submitted_receipt, submit_receipt,
}
use clawfarm_masterpool.Attestation.Utils.{
  InstructionsSysvar, CompactReceiptHashInputs, compact_receipt_domain_separator, to_le_bytes,
  receipt_preimage, build_compact_receipt_hash, verify_preceding_ed25519_instruction,
}
use clawfarm_masterpool.Attestation.Protocol.Signature.{IsSigned, verify-IsSigned}
use clawfarm_masterpool.Masterpool.Utils.{saturate_i64}
use clawfarm_masterpool.Attestation.Protocol.Agreement.{Agrees, pending}

-- What is hashed: the domain, and then the nonce, the metadata, the provider, the payer, the mint, both
-- token counts and the charge, each in little-endian bytes.
abbrev pub signed_bytes : SubmitReceipt → SubmitReceiptArgs → List ℕ
signed_bytes a args =
    compact_receipt_domain_separator
    ++ (to_le_bytes 32 args.request_nonce_hash
        ++ (to_le_bytes 32 args.metadata_hash
            ++ (to_le_bytes 32 a.provider_signer.value.provider_wallet
                ++ (to_le_bytes 32 a.masterpool.payer_user
                    ++ (to_le_bytes 32 a.masterpool.usdc_mint.key
                        ++ (to_le_bytes 8 args.prompt_tokens
                            ++ (to_le_bytes 8 args.completion_tokens
                                ++ to_le_bytes 8 args.charge_atomic)))))))

abbrev contents : SubmitReceipt → SubmitReceiptArgs → CompactReceiptHashInputs
contents a args = record {
  request_nonce_hash = args.request_nonce_hash;
  metadata_hash = args.metadata_hash;
  provider_wallet = a.provider_signer.value.provider_wallet;
  payer_user = a.masterpool.payer_user;
  usdc_mint = a.masterpool.usdc_mint.key;
  prompt_tokens = args.prompt_tokens;
  completion_tokens = args.completion_tokens;
  charge_atomic = args.charge_atomic;
}

contents-signed_bytes :
    (hash : List ℕ → ℕ) (a : SubmitReceipt) (args : SubmitReceiptArgs)
    → build_compact_receipt_hash hash (contents a args) ≡ hash (signed_bytes a args)
unfolding build_compact_receipt_hash receipt_preimage
contents-signed_bytes hash a args = refl

-- What the signer, the clock, the hash and the transaction must be for a receipt to be submitted.
pub record IsAttested (r : Runtime) (hash : List ℕ → ℕ) (sysvar : InstructionsSysvar)
    (a : SubmitReceipt) (args : SubmitReceiptArgs) : Type 0 where
  pub running : a.config.value.is_paused ≡ false
  pub active : a.provider_signer.value.status ≡ signer_status_code SignerStatus.active
  pub signer : a.provider_signer.value.signer ≢ default_pubkey
  pub valid_from : a.provider_signer.value.valid_from ≤ℤ r.now
  pub valid_until :
      (eqb_ℤ a.provider_signer.value.valid_until (pos 0) ≡ true)
      ⊎ (r.now ≤ℤ a.provider_signer.value.valid_until)
  pub provider :
      a.masterpool.provider_account.value.provider_wallet ≡ a.provider_signer.value.provider_wallet
  pub hashed : hash (signed_bytes a args) ≡ args.receipt_hash
  pub signed : IsSigned sysvar a.provider_signer.value.signer args.receipt_hash

-- The receipt that a submission creates.
pub record IsSubmitted (r : Runtime) (a : SubmitReceipt) (args : SubmitReceiptArgs) (c : Receipt)
    : Type 0 where
  pub status : c.status ≡ receipt_status_code ReceiptStatus.submitted
  pub unsettled : c.economics_settled ≡ false
  pub receipt_hash : c.receipt_hash ≡ args.receipt_hash
  pub signer : c.signer ≡ a.provider_signer.value.signer
  pub payer_user : c.payer_user ≡ a.masterpool.payer_user
  pub provider_wallet : c.provider_wallet ≡ a.provider_signer.value.provider_wallet
  pub submitted_at : c.submitted_at ≡ r.now
  pub finalized_at : c.finalized_at ≡ pos 0
  pub deadline :
      c.challenge_deadline ≡ saturate_i64 (r.now +ℤ a.config.value.challenge_window_seconds)

module _ (r : Runtime) (hash : List ℕ → ℕ) (sysvar : InstructionsSysvar) (a a' : SubmitReceipt)
    (args : SubmitReceiptArgs) (l l' : Ledger) where
  attested :
      submit_receipt r hash sysvar a args l ≡ ok (a', l')
      → (build_compact_receipt_hash hash (contents a args) ≡ args.receipt_hash)
        × (verify_preceding_ed25519_instruction sysvar a.provider_signer.value.signer
              args.receipt_hash
            ≡ ok tt)
  unfolding submit_receipt
  attested h = ground arith

  -- A receipt is submitted only by an active signer within its validity, while the program runs, for the
  -- provider that the signer is registered for. Its hash is that of the domain, the nonce, the metadata,
  -- the provider, the payer, the mint, both token counts and the charge; and the instruction before the
  -- running one is of the ed25519 program, with one signature whose key bytes are the signer's and whose
  -- message bytes are those of that hash, both in the instruction itself.
  pub submit-IsAttested :
      submit_receipt r hash sysvar a args l ≡ ok (a', l') → IsAttested r hash sysvar a args
  unfolding submit_receipt
  submit-IsAttested h =
      let (hashed, signed) = attested h in
      record {
        running = ground arith;
        active = ground arith;
        signer = ground arith;
        valid_from = ground arith;
        valid_until = ground arith;
        provider = ground arith;
        hashed = sym (contents-signed_bytes hash a args) ∙ hashed;
        signed = verify-IsSigned sysvar _ _ signed;
      }

  submit_calls :
      submit_receipt r hash sysvar a args l ≡ ok (a', l')
      → (m : RecordMiningFromReceipt) × (record_mining_from_receipt r
            (record_mining_accounts r a)
            args.charge_atomic
            l
          ≡ ok (m, l'))
        × (a'.masterpool ≡ m)
        × (a'.receipt.value ≡ some (submitted_receipt r a args))
  unfolding submit_receipt
  submit_calls h =
      elim (Result-cases
        (record_mining_from_receipt r (record_mining_accounts r a) args.charge_atomic l)) [
          | inl ((m, l₁), e) ↦ (m, ground arith, ground arith, ground arith)
          | inr (c, e) ↦ absurd (ground arith)
        ]

  -- A receipt that is submitted is `Submitted` and unsettled, with the hash given, the signer, the payer and
  -- the signer's provider, the present time, and the end of the challenge window, the latest `i64` where
  -- that exceeds it. Its settlement is the snapshot of the signed charge, `Recorded`, for the same payer
  -- and provider, and refers to the receipt by its address; so the two start in agreement.
  pub submit-Agrees :
      submit_receipt r hash sysvar a args l ≡ ok (a', l')
      → (c : Receipt) × (s : ReceiptSettlement) × (a'.receipt.value ≡ some c)
        × (a'.masterpool.receipt_settlement.value ≡ some s)
        × IsSubmitted r a args c
        × IsSnapshot (record_mining_accounts r a) args.charge_atomic s
        × Agrees (record { receipt = c; settlement = s })
        × (s.payer_user ≡ c.payer_user)
        × (s.provider_wallet ≡ c.provider_wallet)
        × (s.attestation_receipt ≡ a.receipt.key)
  unfolding submitted_receipt record_mining_accounts
  submit-Agrees h =
      let (m, e, f, g) = submit_calls h in
      let (s, t, v) = record_mining-IsSnapshot r (record_mining_accounts r a) m _ l l' e in
      let signed = submit-IsAttested h in
      (
        submitted_receipt r a args,
        s,
        g,
        ap (λ x. x.receipt_settlement.value) f ∙ t,
        record {
          status = refl;
          unsettled = refl;
          receipt_hash = refl;
          signer = refl;
          payer_user = refl;
          provider_wallet = refl;
          submitted_at = refl;
          finalized_at = refl;
          deadline = refl;
        },
        v,
        pending (inl refl) refl v.status,
        v.payer_user,
        v.provider_wallet ∙ signed.provider,
        v.receipt,
      )
