-- ===== src/Examples/Windows.antt =====
-- A receipt on the chain, challenged, finalized and timed out.
use clawfarm_masterpool.Prelude.{◌≡◌, ◌↔◌, refl, ◌≢◌, inl, false, none, ok, pos, ◌<ℤ◌, arith}
use clawfarm_masterpool.Runtime.{Ledger, balance, supply}
use clawfarm_masterpool.Masterpool.Utils.{calculate_bps_amount, checked_add_u64, checked_sub_u64}
use clawfarm_masterpool.Attestation.Error.{ErrorCode}
use clawfarm_masterpool.Attestation.Types.{fail, challenge_type_of}
use clawfarm_masterpool.Attestation.Accounts.{Receipt}
use clawfarm_masterpool.Attestation.Receipt.{
  signed_config, FinalizeReceipt, finalize_receipt, finalized_receipt, settle_accounts,
}
use clawfarm_masterpool.Attestation.Challenge.{
  OpenChallenge, open_challenge, bond_accounts, ResolveChallenge, timeout_reject_challenge,
  resolve_accounts,
}
use clawfarm_masterpool.Attestation.Protocol.Agreement.{
  Pair, Agrees, pending, Reach, here, next, finalizes, Reach-Agrees,
}
use clawfarm_masterpool.Attestation.Protocol.Window.{
  open-then-finalize, finalize-then-open, timeout_iff, IsPending, IsTimedOut,
}
use clawfarm_masterpool.Masterpool.Receipt.{
  check_settle_finalized_receipt, settle_finalized_receipt, lock_pending,
}
use clawfarm_masterpool.Masterpool.Challenge.{
  check_resolve_challenge_economics, check_record_challenge_bond, record_challenge_bond,
}
use clawfarm_masterpool.Examples.Chain.{burned, put_supply, derived, chain_at, left, moved, put}
use clawfarm_masterpool.Examples.Accounts.{
  ledger, bonding, settling, resolving, settlement, signing,
}
use clawfarm_masterpool.Examples.Attestations.{rules}

abbrev receipt : Receipt
receipt = record {
  receipt_hash = 203;
  signer = 3;
  payer_user = 11;
  provider_wallet = 12;
  submitted_at = pos 1_000;
  challenge_deadline = pos 87_400;
  finalized_at = pos 0;
  status = 0;
  economics_settled = false;
}

abbrev opening : OpenChallenge
opening = record {
  config = rules;
  receipt = record { key = derived; value = receipt };
  challenge = record { key = derived; value = none };
  masterpool_program = 100;
  masterpool = bonding;
}

abbrev opened : OpenChallenge × Ledger
opened = left (open_challenge (chain_at 1_000) opening 4 99 ledger) (opening, ledger)

open_runs : open_challenge (chain_at 1_000) opening 4 99 ledger ≡ ok opened
unfolding open_challenge challenge_type_of bond_accounts signed_config check_record_challenge_bond
    record_challenge_bond checked_add_u64 checked_sub_u64 calculate_bps_amount moved balance put
open_runs = refl

abbrev finalizing : FinalizeReceipt
finalizing = record {
  authority = signing 50;
  config = rules;
  receipt = record { key = derived; value = receipt };
  masterpool_program = 100;
  masterpool = settling;
}

open-then-finalize_example :
    (finalize_receipt (chain_at 1_000) finalizing ledger ≡ fail ErrorCode.challenge_window_open)
    × (finalize_receipt (chain_at 99_000) (record finalizing { receipt = opened.0.receipt }) ledger
        ≡ fail ErrorCode.receipt_not_finalizable)
open-then-finalize_example =
    open-then-finalize (chain_at 1_000) (chain_at 99_000) opening opened.0 4 99 ledger opened.1
      finalizing (record finalizing { receipt = opened.0.receipt }) ledger open_runs refl refl

abbrev finalized : FinalizeReceipt × Ledger
finalized = left (finalize_receipt (chain_at 87_401) finalizing ledger) (finalizing, ledger)

finalize_runs : finalize_receipt (chain_at 87_401) finalizing ledger ≡ ok finalized
unfolding finalize_receipt finalized_receipt settle_accounts signed_config
    check_settle_finalized_receipt settle_finalized_receipt lock_pending checked_add_u64
    checked_sub_u64 moved balance put
finalize_runs = refl

finalize-then-open_example :
    (pos 87_400 <ℤ pos 87_401) × (open_challenge (chain_at 87_402) opening 4 99 ledger ≢ ok opened)
finalize-then-open_example =
    finalize-then-open (chain_at 87_401) (chain_at 87_402) finalizing finalized.0 ledger finalized.1
      opening 4 99 ledger opened finalize_runs refl refl (ground arith)

abbrev before : Pair
before = record { receipt = receipt; settlement = settlement }

abbrev after : Pair
after = record {
  receipt = finalized.0.receipt.value;
  settlement = finalized.0.masterpool.receipt_settlement.value;
}

paid_out : Reach before after
paid_out =
    next here (
      finalizes (chain_at 87_401) finalizing finalized.0 ledger finalized.1 refl refl finalize_runs)

Reach-Agrees_example : Agrees after
Reach-Agrees_example = Reach-Agrees (pending (inl refl) refl refl) paid_out

abbrev judging : ResolveChallenge
judging = record {
  authority = signing 52;
  config = rules;
  receipt = record { key = derived; value = record receipt { status = 1 } };
  challenge = record {
    key = derived;
    value = record {
      receipt = derived;
      challenger = 14;
      challenge_type = 4;
      evidence_hash = 99;
      bond_amount = 2_000_000;
      opened_at = pos 1_000;
      resolved_at = pos 0;
      status = 0;
      resolution_code = 0;
    };
  };
  masterpool_program = 100;
  masterpool = resolving;
}

judging-IsPending : IsPending (chain_at 173_801) judging
unfolding check_resolve_challenge_economics resolve_accounts signed_config
judging-IsPending = record {
  opened = refl;
  constraints = refl;
  caller = refl;
  running = refl;
  recorded = refl;
  receipt = refl;
  bond_receipt = refl;
  bond_challenge = refl;
  locked = refl;
  counted = ground arith;
}

abbrev after_burn : Ledger
after_burn = left (burned 21 32 2_000_000 ledger) ledger

bond_burns : burned 21 32 2_000_000 ledger ≡ ok after_burn
unfolding burned balance supply put put_supply
bond_burns = refl

timeout_iff_example :
    ((a' : ResolveChallenge) × (timeout_reject_challenge (chain_at 173_801) judging ledger
        ≡ ok (a', after_burn))
      × IsTimedOut a')
    ↔ (pos 173_800 <ℤ pos 173_801)
timeout_iff_example =
    timeout_iff (chain_at 173_801) judging ledger after_burn 1_000 172_800 refl refl (ground arith)
      judging-IsPending bond_burns
