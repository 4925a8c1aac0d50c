-- ===== src/Attestation/Protocol/Agreement.antt =====
-- The two programs agree on every receipt: the status that the attestation program stores and the
-- settlement that the masterpool stores, through every instruction of either.
use clawfarm_masterpool.Prelude.{
  ℕ, ◌≡◌, refl, sym, ap, subst, ◌∙◌, ◌≢◌, ◌⊎◌, inl, inr, true, false, ok, arith, Result-cases,
}
use clawfarm_masterpool.Runtime.{Ledger, Runtime}
use clawfarm_masterpool.Attestation.Types.{
  ReceiptStatus, ResolutionCode, receipt_status_code, resolution_code_number, resolution_code_of,
}
use clawfarm_masterpool.Attestation.Accounts.{Receipt}
use clawfarm_masterpool.Masterpool.Types.{ReceiptSettlementStatus, settlement_status_code}
use clawfarm_masterpool.Masterpool.Accounts.{ReceiptSettlement}
use clawfarm_masterpool.Masterpool.Receipt.{settle_finalized_receipt}
use clawfarm_masterpool.Masterpool.Challenge.{
  record_challenge_bond, ResolveChallengeEconomics, resolve_challenge_economics,
}
use clawfarm_masterpool.Masterpool.Challenge.Resolution.{
  resolve-IsResolved, resolve-IsRejected, resolve-IsReverted,
}
use clawfarm_masterpool.Attestation.Receipt.{FinalizeReceipt, finalized_receipt, finalize_receipt}
use clawfarm_masterpool.Attestation.Challenge.{
  OpenChallenge, open_challenge, ResolveChallenge, resolve_accounts, verdict, enact, is_unresolved,
  resolve_challenge, timeout_reject_challenge,
}

-- A receipt of the attestation program with its settlement in the masterpool.
pub record Pair : Type 0 where
  pub receipt : Receipt
  pub settlement : ReceiptSettlement

abbrev HasStatus : Pair → ReceiptStatus → Type 0
HasStatus p s = p.receipt.status ≡ receipt_status_code s

abbrev IsSettlement : Pair → ReceiptSettlementStatus → Type 0
IsSettlement p s = p.settlement.status ≡ settlement_status_code s

-- The four states in which the two programs can stand: open, finalized and unpaid, paid, and reverted.
pub data Agrees (p : Pair) : Type 0 where
  pending :
      HasStatus p ReceiptStatus.submitted ⊎ HasStatus p ReceiptStatus.challenged
      → p.receipt.economics_settled ≡ false
      → IsSettlement p ReceiptSettlementStatus.recorded
      → Agrees p
  unpaid :
      HasStatus p ReceiptStatus.finalized
      → p.receipt.economics_settled ≡ false
      → IsSettlement p ReceiptSettlementStatus.recorded
      → Agrees p
  paid :
      HasStatus p ReceiptStatus.finalized
      → p.receipt.economics_settled ≡ true
      → IsSettlement p ReceiptSettlementStatus.finalized_settled
      → Agrees p
  reverted :
      HasStatus p ReceiptStatus.rejected ⊎ HasStatus p ReceiptStatus.slashed
      → p.receipt.economics_settled ≡ true
      → IsSettlement p ReceiptSettlementStatus.challenged_reverted
      → Agrees p

abbrev after_finalize : FinalizeReceipt → Pair
after_finalize a = record {
  receipt = a.receipt.value;
  settlement = a.masterpool.receipt_settlement.value;
}

abbrev after_resolve : ResolveChallenge → Pair
after_resolve a = record {
  receipt = a.receipt.value;
  settlement = a.masterpool.receipt_settlement.value;
}

abbrev after_open : OpenChallenge → Pair
after_open a = record {
  receipt = a.receipt.value;
  settlement = a.masterpool.receipt_settlement.value;
}

-- What happens to a receipt: an instruction of the attestation program, with any other accounts, at any
-- time and on any ledger, that is given this receipt and this settlement and succeeds.
pub data Step (p q : Pair) : Type 0 where
  opens :
      (r : Runtime) (a a' : OpenChallenge) (kind evidence : ℕ) (l l' : Ledger)
      → p ≡ after_open a
      → q ≡ after_open a'
      → open_challenge r a kind evidence l ≡ ok (a', l')
      → Step p q
  resolves :
      (r : Runtime) (a a' : ResolveChallenge) (code : ℕ) (l l' : Ledger)
      → p ≡ after_resolve a
      → q ≡ after_resolve a'
      → resolve_challenge r a code l ≡ ok (a', l')
      → Step p q
  times_out :
      (r : Runtime) (a a' : ResolveChallenge) (l l' : Ledger)
      → p ≡ after_resolve a
      → q ≡ after_resolve a'
      → timeout_reject_challenge r a l ≡ ok (a', l')
      → Step p q
  finalizes :
      (r : Runtime) (a a' : FinalizeReceipt) (l l' : Ledger)
      → p ≡ after_finalize a
      → q ≡ after_finalize a'
      → finalize_receipt r a l ≡ ok (a', l')
      → Step p q

pub data Reach (p : Pair) : Pair → Type 0 where
  here : Reach p p
  next : {q s : Pair} → Reach p q → Step q s → Reach p s

module _ (r : Runtime) (a a' : OpenChallenge) (kind evidence : ℕ) (l l' : Ledger) where
  opened :
      open_challenge r a kind evidence l ≡ ok (a', l')
      → (a.receipt.value.status ≡ receipt_status_code ReceiptStatus.submitted)
        × (a'.receipt.value.status ≡ receipt_status_code ReceiptStatus.challenged)
        × (a'.receipt.value.economics_settled ≡ a.receipt.value.economics_settled)
        × (a'.masterpool.receipt_settlement.value.status
            ≡ settlement_status_code ReceiptSettlementStatus.recorded)
        × (a.masterpool.receipt_settlement.value.status
            ≡ settlement_status_code ReceiptSettlementStatus.recorded)
  unfolding open_challenge record_challenge_bond
  opened h = ground arith

  open-Agrees :
      open_challenge r a kind evidence l ≡ ok (a', l')
      → Agrees (after_open a)
      → Agrees (after_open a')
  open-Agrees h (pending s e t) =
      let (_, challenged, kept, recorded, _) = opened h in
      pending (inr challenged) (kept ∙ e) recorded
  open-Agrees h (unpaid s e t) = absurd (ground (arith, opened h))
  open-Agrees h (paid s e t) = absurd (ground (arith, opened h))
  open-Agrees h (reverted s e t) = absurd (ground (arith, opened h))

module _ (r : Runtime) (a a' : FinalizeReceipt) (l l' : Ledger) where
  finalized :
      finalize_receipt r a l ≡ ok (a', l')
      → (a'.receipt.value.status ≡ receipt_status_code ReceiptStatus.finalized)
        × (a'.receipt.value.economics_settled ≡ true)
        × (a'.masterpool.receipt_settlement.value.status
            ≡ settlement_status_code ReceiptSettlementStatus.finalized_settled)
        × (a.masterpool.receipt_settlement.value.status
            ≡ settlement_status_code ReceiptSettlementStatus.recorded)
  unfolding finalize_receipt finalized_receipt settle_finalized_receipt
  finalized h = ground arith

  finalize-Agrees : finalize_receipt r a l ≡ ok (a', l') → Agrees (after_finalize a')
  finalize-Agrees h = let (f, e, s, _) = finalized h in paid f e s

-- What an enacted resolution leaves.
abbrev IsEnacted : ResolutionCode → ResolveChallenge → Type 0
IsEnacted code a =
    (a.receipt.value.status ≡ receipt_status_code (verdict code).receipt_status)
    × (a.receipt.value.economics_settled ≡ (verdict code).economics_settled)

module _ (r : Runtime) (a a' : ResolveChallenge) (l l' : Ledger) where
  enact_calls :
      (code : ResolutionCode)
      → enact r a code l ≡ ok (a', l')
      → (m : ResolveChallengeEconomics) × (resolve_challenge_economics r
            (resolve_accounts r a)
            (resolution_code_number code)
            l
          ≡ ok (m, l'))
        × (a'.masterpool ≡ m)
        × IsEnacted code a'
  unfolding enact
  enact_calls code h =
      elim (Result-cases
        (resolve_challenge_economics r (resolve_accounts r a) (resolution_code_number code) l)) [
          | inl ((m, l₁), e) ↦ (m, ground arith, ground arith, ground arith)
          | inr (c, e) ↦ absurd (ground arith)
        ]

  -- The settlement before is recorded, and the settlement after is as the verdict has it.
  enact-Agrees :
      (code : ResolutionCode)
      → is_unresolved code ≡ false
      → enact r a code l ≡ ok (a', l')
      → Agrees (after_resolve a')
        × (a.masterpool.receipt_settlement.value.status
            ≡ settlement_status_code ReceiptSettlementStatus.recorded)
  unfolding verdict is_unresolved resolve_accounts
  enact-Agrees ResolutionCode.unresolved u h = cc
  enact-Agrees ResolutionCode.accepted u h =
      let (m, e, f, w) = enact_calls ResolutionCode.accepted h in
      let v = resolve-IsReverted r (resolve_accounts r a) m _ l l' e refl in
      (
        reverted (inl w.0) w.1 (ap (λ x. x.receipt_settlement.value.status) f ∙ v.settlement),
        (resolve-IsResolved r (resolve_accounts r a) m _ l l' e).recorded,
      )
  enact-Agrees ResolutionCode.receipt_invalidated u h =
      let (m, e, f, w) = enact_calls ResolutionCode.receipt_invalidated h in
      let v = resolve-IsReverted r (resolve_accounts r a) m _ l l' e refl in
      (
        reverted (inl w.0) w.1 (ap (λ x. x.receipt_settlement.value.status) f ∙ v.settlement),
        (resolve-IsResolved r (resolve_accounts r a) m _ l l' e).recorded,
      )
  enact-Agrees ResolutionCode.signer_revoked u h =
      let (m, e, f, w) = enact_calls ResolutionCode.signer_revoked h in
      let v = resolve-IsReverted r (resolve_accounts r a) m _ l l' e refl in
      (
        reverted (inr w.0) w.1 (ap (λ x. x.receipt_settlement.value.status) f ∙ v.settlement),
        (resolve-IsResolved r (resolve_accounts r a) m _ l l' e).recorded,
      )
  enact-Agrees ResolutionCode.rejected u h =
      let (m, e, f, w) = enact_calls ResolutionCode.rejected h in
      let v = resolve-IsRejected r (resolve_accounts r a) m _ l l' e refl in
      (
        unpaid w.0 w.1 (ap (λ x. x.receipt_settlement.value.status) f ∙ v.settlement),
        (resolve-IsResolved r (resolve_accounts r a) m _ l l' e).recorded,
      )

  resolve-enacts :
      (number : ℕ)
      → resolve_challenge r a number l ≡ ok (a', l')
      → (code : ResolutionCode) × (is_unresolved code ≡ false) × (enact r a code l ≡ ok (a', l'))
  unfolding resolve_challenge
  resolve-enacts number h = elim (Result-cases (resolution_code_of number)) [
    | inl (code, e) ↦ (code, ground arith, ground arith)
    | inr (c, e) ↦ absurd (ground arith)
  ]

  timeout-enacts :
      timeout_reject_challenge r a l ≡ ok (a', l')
      → enact r a ResolutionCode.rejected l ≡ ok (a', l')
  unfolding timeout_reject_challenge
  timeout-enacts h = ground arith

-- A step starts from a recorded settlement, and ends in agreement if it starts in it.
Step-Agrees :
    {p q : Pair}
    → Step p q
    → (IsSettlement p ReceiptSettlementStatus.recorded) × (Agrees p → Agrees q)
unfolding is_unresolved
Step-Agrees (opens r a a' kind evidence l l' e f h) =
    let (_, _, _, _, recorded) = opened r a a' kind evidence l l' h in
    (
      rw e recorded,
      λ v. subst Agrees (sym f) (open-Agrees r a a' kind evidence l l' h (subst Agrees e v)),
    )
Step-Agrees (resolves r a a' number l l' e f h) =
    let (code, u, g) = resolve-enacts r a a' l l' number h in
    let (v, recorded) = enact-Agrees r a a' l l' code u g in
    (rw e recorded, λ _. subst Agrees (sym f) v)
Step-Agrees (times_out r a a' l l' e f h) =
    let g = timeout-enacts r a a' l l' h in
    let (v, recorded) = enact-Agrees r a a' l l' ResolutionCode.rejected refl g in
    (rw e recorded, λ _. subst Agrees (sym f) v)
Step-Agrees (finalizes r a a' l l' e f h) =
    let (_, _, _, recorded) = finalized r a a' l l' h in
    (rw e recorded, λ _. subst Agrees (sym f) (finalize-Agrees r a a' l l' h))

-- The two programs agree for ever: from a receipt and a settlement that agree, every sequence of
-- instructions that open, resolve, time out or finalize leads to a receipt and a settlement that agree.
pub Reach-Agrees : {p q : Pair} → Agrees p → Reach p q → Agrees q
Reach-Agrees v here = v
Reach-Agrees v (next t s) = (Step-Agrees s).1 (Reach-Agrees v t)

-- A receipt whose settlement is paid out or reverted is at its end: no instruction that opens, resolves,
-- times out or finalizes takes it anywhere, so it stays as it is.
pub Step-final :
    {p q : Pair}
    → p.settlement.status ≢ settlement_status_code ReceiptSettlementStatus.recorded
    → Reach p q
    → q ≡ p
Step-final n here = refl
Step-final {p} n (next t s) =
    let same = Step-final n t in
    absurd (n (subst (λ x. IsSettlement x ReceiptSettlementStatus.recorded) same (Step-Agrees s).0))
