-- ===== src/Runtime/Failure.antt =====
-- The errors of an instruction: a code of one of the two programs, a check of the account
-- framework, or an error that a called program returned.
use clawfarm_masterpool.Prelude.{ℕ, Bool, Result, guard}
use clawfarm_masterpool.Masterpool.Error as MasterpoolError
use clawfarm_masterpool.Attestation.Error as AttestationError

pub data AnchorError : Type 0 where
  constraint_has_one constraint_seeds constraint_raw constraint_address : AnchorError
  invalid_program_id account_not_signer account_not_initialized account_already_in_use : AnchorError

pub data Error : Type 0 where
  masterpool : MasterpoolError.ErrorCode → Error
  attestation : AttestationError.ErrorCode → Error
  anchor : AnchorError → Error
  program : ℕ → Error

-- The result of code that may fail with such an error.
abbrev pub Outcome : Type 0 → Type 0
Outcome A = Result Error A

-- A check of the account framework: the error of a constraint that does not hold.
abbrev pub constrain : Bool → AnchorError → Outcome (Unit {0})
constrain b e = guard b (anchor e)
