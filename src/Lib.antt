-- ===== src/Lib.antt =====
-- A verification library of the two Solana programs of this repository: programs/clawfarm-masterpool,
-- which holds the stakes, rewards and payments, and programs/clawfarm-attestation, which admits the
-- signed receipts of inference providers and lets them be challenged.
--
-- The life of a receipt. A provider's signer signs the hash of a charge; `submit_receipt` checks the
-- signer, the hash and the ed25519 instruction before it, and calls `record_mining_from_receipt`, which
-- takes the payment and books both rewards as pending. Within the window `open_challenge` calls
-- `record_challenge_bond`; `resolve_challenge` or `timeout_reject_challenge` calls
-- `resolve_challenge_economics`, which burns the bond or reverts the receipt. After the window, or after
-- a rejected challenge, `finalize_receipt` calls `settle_finalized_receipt`, which pays the provider and
-- locks the rewards. `materialize_reward_release` moves what has vested from locked to released, and
-- `claim_released_claw` pays it. Beside this stand the registration and exit of providers, the
-- configuration with the genesis mint, and a faucet for test tokens.
--
-- How the code is modelled. Each instruction `f(ctx, args)` is a function `f` of a runtime, of a record
-- of the accounts of its `#[derive(Accounts)]` struct, of its arguments and of the token ledger; it gives
-- the accounts and the ledger after the call, or the error. An instruction that calls no token program
-- takes no ledger. An error aborts the transaction, so writes before it leave nothing. The constraints
-- of the struct are a function `check_f`; where one program calls the other, the caller runs the
-- constraints and then the instruction. An account that an instruction creates is a slot that may be
-- empty.
--
-- Files.
--   Prelude: results, the tests on numbers, and integers over the native numbers, with their rules for the
--     tactics.
--   Runtime: what the chain gives. Runtime.Failure has the errors, Runtime.Defs the accounts, the ledger
--     of token accounts and mints, and the record `Runtime` of the clock, of `find_program_address` and
--     of the token program's instructions. These are not code of the repository, so they are
--     parameters; `TokenLaws` says what the token program documents of the calls that it accepts.
--     Runtime.Constraints has the framework's constraints that the structs use.
--   Masterpool.Constants, Error, Types, Accounts: constants.rs, error.rs and state/ of
--     programs/clawfarm-masterpool/src.
--   Masterpool.Utils: utils.rs; Bounds and Vesting under it hold its laws.
--   Masterpool.Receipt: instructions/receipt.rs; Charge, Progress, Payment and Settlement hold its laws.
--   Masterpool.Challenge: instructions/challenge.rs; Bonding, Resolution and Payout hold its laws.
--   Masterpool.Reward: instructions/reward.rs; Releasing and Claiming hold its laws.
--   Masterpool.Provider: instructions/provider.rs; Obligations holds its laws.
--   Masterpool.Config: instructions/config.rs; Governance holds its laws.
--   Masterpool.Faucet: instructions/faucet.rs; Caps holds its laws.
--   Masterpool.Lifecycle: a receipt through several instructions of the masterpool.
--   Attestation.Error, Types, Accounts, Utils, Admin, Receipt, Challenge: error.rs, state/, utils.rs and
--     instructions/ of programs/clawfarm-attestation/src.
--   Attestation.Protocol: both programs together. Agreement has the step relation of a receipt and its
--     settlement; Preimage says that the hashed bytes determine a receipt, Signature what a passed check of
--     the ed25519 instruction says of the transaction, and Submission, Window and Access what the
--     instructions admit.
--   Examples: a concrete chain, tests, and instances of the theorems.
--
-- Numbers. A `Pubkey` and a 32-byte hash are the number that their bytes spell, and `Pubkey::default()` is
-- 0. Unsigned fields are natural numbers; every addition, subtraction and conversion checks the range
-- that the source checks. Signed fields are integers. No definition runs on fuel: the programs have no
-- loops, and the functions on bytes are structural.
--
-- Parameters. SHA-256 and the instructions sysvar are arguments of `submit_receipt`, and the runtime is an
-- argument of every instruction.
--
-- Not modelled: events, which are log output; the entry points in lib.rs, which pass their arguments on;
-- rent, account sizes, bumps, and the owner and discriminator of an account, which the framework checks;
-- the program accounts that a struct only names (`token_program`, `system_program`, `rent`); the
-- TypeScript clients and scripts.
pub mod Prelude
pub mod Runtime
pub mod Masterpool
pub mod Attestation
pub mod Examples
