-- ===== src/Attestation/Protocol/Window.antt =====
-- When a receipt can be challenged and when it can be finalized.
use clawfarm_masterpool.Prelude.{
  ℕ, ◌+◌, ◌<◌, ◌≡◌, ◌≢◌, ◌↔◌, inl, inr, Result-cases, false, ok, ℤ, pos, ◌+ℤ◌, ◌≤ℤ◌, ◌<ℤ◌, arith,
}
use clawfarm_masterpool.Runtime.{Ledger, Runtime}
use clawfarm_masterpool.Attestation.Error.{ErrorCode}
use clawfarm_masterpool.Attestation.Types.{
  ReceiptStatus, ChallengeStatus, ResolutionCode, receipt_status_code, challenge_status_code,
  resolution_code_number, fail,
}
use clawfarm_masterpool.Masterpool.Constants.{i64_bound}
use clawfarm_masterpool.Attestation.Receipt.{
  FinalizeReceipt, finalized_receipt, finalize_receipt, signed_config,
}
use clawfarm_masterpool.Attestation.Challenge.{
  OpenChallenge, open_challenge, ResolveChallenge, enact, resolve_challenge,
  timeout_reject_challenge, resolve_accounts, verdict,
}
use clawfarm_masterpool.Masterpool.Types.{
  ReceiptSettlementStatus, ChallengeBondStatus, settlement_status_code, bond_status_code,
}
use clawfarm_masterpool.Masterpool.Utils.{checked_sub_u64, require_attestation_caller}
use clawfarm_masterpool.Masterpool.Challenge.{
  check_resolve_challenge_economics, resolve_challenge_economics, burn_bond, close_resolution,
}

-- Of one submitted receipt and one time, either it can be challenged or it can be finalized: where a
-- challenge of it is opened, finalizing it fails with `ChallengeWindowOpen`, and a challenge that
-- is opened stops it from being finalized at any time, with `ReceiptNotFinalizable`.
pub open-then-finalize :
    (r r₂ : Runtime) (a a' : OpenChallenge) (kind evidence : ℕ) (l l' : Ledger)
    (b c : FinalizeReceipt) (k : Ledger)
    → open_challenge r a kind evidence l ≡ ok (a', l')
    → b.receipt.value ≡ a.receipt.value
    → c.receipt.value ≡ a'.receipt.value
    → (finalize_receipt r b k ≡ fail ErrorCode.challenge_window_open)
      × (finalize_receipt r₂ c k ≡ fail ErrorCode.receipt_not_finalizable)
unfolding open_challenge finalize_receipt finalized_receipt
open-then-finalize r r₂ a a' kind evidence l l' b c k h e f = (ground arith, ground arith)

-- A receipt that is finalized from the state `Submitted` was past its challenge deadline, so no challenge
-- of it opens at that time or later.
pub finalize-then-open :
    (r r₂ : Runtime) (a a' : FinalizeReceipt) (l l' : Ledger) (b : OpenChallenge)
    (kind evidence : ℕ) (k : Ledger) (done : OpenChallenge × Ledger)
    → finalize_receipt r a l ≡ ok (a', l')
    → a.receipt.value.status ≡ receipt_status_code ReceiptStatus.submitted
    → b.receipt.value ≡ a.receipt.value
    → r.now ≤ℤ r₂.now
    → (a.receipt.value.challenge_deadline <ℤ r.now)
      × (open_challenge r₂ b kind evidence k ≢ ok done)
unfolding open_challenge finalize_receipt finalized_receipt
finalize-then-open r r₂ a a' l l' b kind evidence k done h s e t = (ground arith, λ g. ground arith)

-- What the accounts of a challenge must be for the masterpool to carry out its rejection: they pass the
-- constraints and belong together, the challenge is open, the settlement is recorded, the bond is
-- locked, and challenges are being processed.
pub record IsPending (r : Runtime) (a : ResolveChallenge) : Type 0 where
  pub opened : a.challenge.value.status ≡ challenge_status_code ChallengeStatus.opened
  pub constraints : check_resolve_challenge_economics r (resolve_accounts r a) ≡ ok tt
  pub caller : a.masterpool.config.value.attestation_program ≡ r.attestation_id
  pub running : a.masterpool.config.value.pause_challenge_processing ≡ false
  pub recorded :
      a.masterpool.receipt_settlement.value.status
      ≡ settlement_status_code ReceiptSettlementStatus.recorded
  pub receipt : a.masterpool.receipt_settlement.value.attestation_receipt ≡ a.receipt.key
  pub bond_receipt : a.masterpool.challenge_bond_record.value.attestation_receipt ≡ a.receipt.key
  pub bond_challenge :
      a.masterpool.challenge_bond_record.value.attestation_challenge ≡ a.challenge.key
  pub locked :
      a.masterpool.challenge_bond_record.value.status ≡ bond_status_code ChallengeBondStatus.locked
  pub counted : 0 < a.masterpool.provider_account.value.unresolved_challenge_count

-- How a timeout leaves the challenge, its bond, the receipt and the settlement.
pub record IsTimedOut (a' : ResolveChallenge) : Type 0 where
  pub challenge : a'.challenge.value.status ≡ challenge_status_code ChallengeStatus.rejected
  pub receipt : a'.receipt.value.status ≡ receipt_status_code ReceiptStatus.finalized
  pub unsettled : a'.receipt.value.economics_settled ≡ false
  pub settlement :
      a'.masterpool.receipt_settlement.value.status
      ≡ settlement_status_code ReceiptSettlementStatus.recorded
  pub bond :
      a'.masterpool.challenge_bond_record.value.status ≡ bond_status_code ChallengeBondStatus.burned
  pub finalizable : (now : ℤ) → finalized_receipt a'.receipt.value now ≡ ok a'.receipt.value

module _ (r : Runtime) (a : ResolveChallenge) (l l' : Ledger) where
  enact_succeeds :
      IsPending r a
      → r.burn a.masterpool.claw_mint a.masterpool.challenge_bond_vault.key
          a.masterpool.pool_authority a.masterpool.challenge_bond_record.value.bond_amount l
        ≡ ok l'
      → (a' : ResolveChallenge) × (enact r a ResolutionCode.rejected l ≡ ok (a', l'))
        × IsTimedOut a'
  unfolding enact verdict resolve_accounts signed_config resolve_challenge_economics burn_bond
      close_resolution checked_sub_u64 require_attestation_caller finalized_receipt
  enact_succeeds p e = elim (Result-cases (enact r a ResolutionCode.rejected l)) [
    | inl ((a', l₁), h) ↦ (a', ground arith, ground arith)
    | inr (c, h) ↦ absurd (ground arith)
  ]

  -- A challenge that nobody resolves does not block its receipt for ever. Take a pending challenge whose
  -- opening time and timeout are not negative and have a sum that fits an `i64`, and whose bond the token
  -- program burns. `timeout_reject_challenge` succeeds on it exactly after that sum: it leaves the
  -- ledger of the burn, the challenge rejected, the bond burned, the settlement recorded, and the receipt
  -- finalized and unsettled, so that it passes the test of `finalize_receipt` at every time.
  pub timeout_iff :
      (opened timeout : ℕ)
      → a.challenge.value.opened_at ≡ pos opened
      → a.config.value.challenge_resolution_timeout_seconds ≡ pos timeout
      → opened + timeout < i64_bound
      → IsPending r a
      → r.burn a.masterpool.claw_mint a.masterpool.challenge_bond_vault.key
          a.masterpool.pool_authority a.masterpool.challenge_bond_record.value.bond_amount l
        ≡ ok l'
      → ((a' : ResolveChallenge) × (timeout_reject_challenge r a l ≡ ok (a', l')) × IsTimedOut a')
        ↔ (pos (opened + timeout) <ℤ r.now)
  unfolding timeout_reject_challenge ◌+ℤ◌
  timeout_iff opened timeout e f b p burned =
      let (a', h, done) = enact_succeeds p burned in
      (λ (_, g, _). ground arith, λ late. (a', ground arith, done))

-- A rejected challenge leaves a receipt that can be finalized at once: the state that the rejection leaves
-- passes the test of `finalize_receipt` at every time, and the receipt is not changed by it.
pub rejected-finalizable :
    (r : Runtime) (a a' : ResolveChallenge) (l l' : Ledger) (now : ℤ)
    → resolve_challenge r a (resolution_code_number ResolutionCode.rejected) l ≡ ok (a', l')
    → finalized_receipt a'.receipt.value now ≡ ok a'.receipt.value
unfolding resolve_challenge finalized_receipt enact
rejected-finalizable r a a' l l' now h = ground arith
