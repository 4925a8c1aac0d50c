-- ===== src/Runtime/Constraints.antt =====
-- The account framework's constraints that the `#[derive(Accounts)]` structs use, as checks.
use clawfarm_masterpool.Prelude.{Bool, true, false, Option, none, some, ◌==◌}
use clawfarm_masterpool.Runtime.Failure.{Outcome, AnchorError, constrain}
use clawfarm_masterpool.Runtime.Defs.{Pubkey, AccountInfo, Slot, Seeds, Runtime}

-- `Signer<'info>`
abbrev pub signer : AccountInfo → Outcome (Unit {0})
signer a = constrain a.is_signer AnchorError.account_not_signer

-- `seeds = [..], bump`, or with `seeds::program = program`
abbrev pub seeds_at : Runtime → Pubkey → Seeds → Pubkey → Outcome (Unit {0})
seeds_at r program seeds key =
    constrain (key == r.find_address program seeds) AnchorError.constraint_seeds

abbrev pub is_none : {A : Type 0} → Option A → Bool
is_none none = true
is_none (some _) = false

-- `init`
abbrev pub vacant : {A : Type 0} → Slot A → Outcome (Unit {0})
vacant s = constrain (is_none s.value) AnchorError.account_already_in_use

-- What an account holds, or the zeroed value with which `init_if_needed` creates it.
abbrev pub loaded : {A : Type 0} → Option A → A → A
loaded none blank = blank
loaded (some a) blank = a

-- `option == COption::Some(key)`
abbrev pub same_key : Option Pubkey → Pubkey → Bool
same_key none k = false
same_key (some j) k = j == k
