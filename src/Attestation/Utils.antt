-- ===== src/Attestation/Utils.antt =====
-- programs/clawfarm-attestation/src/utils.rs: the bytes that a receipt is hashed from, and the check of the
-- ed25519 instruction before it.
use clawfarm_masterpool.Prelude.{
  ℕ, zero, suc, ◌+◌, ◌-◌, ◌*◌, ◌/◌, ◌%◌, ◌^◌, Bool, true, false, ◌&&◌, Option, List, [], ◌∷◌, ◌++◌,
  ok, ◌>>=◌, ◌>>◌, ok_or, ltb, leb, ◌==◌,
}
use clawfarm_masterpool.Runtime.{Error, Outcome, Pubkey}
use clawfarm_masterpool.Attestation.Error.{ErrorCode}
use clawfarm_masterpool.Attestation.Types.{
  SubmitReceiptArgs, AttesterType, attester_type_code, require,
}

-- The `width` bytes of a number, the lowest first.
unfoldable pub to_le_bytes : ℕ → ℕ → List ℕ
to_le_bytes zero n = []
to_le_bytes (suc width) n = n % 256 ∷ to_le_bytes width (n / 256)

-- The ASCII codes of "clawfarm:receipt:v2".
abbrev pub compact_receipt_domain_separator : List ℕ
compact_receipt_domain_separator =
    b'c' ∷ b'l' ∷ b'a' ∷ b'w' ∷ b'f' ∷ b'a' ∷ b'r' ∷ b'm' ∷ b':' ∷ b'r' ∷ b'e' ∷ b'c' ∷ b'e' ∷ b'i'
    ∷ b'p' ∷ b't' ∷ b':' ∷ b'v' ∷ b'2' ∷ []

pub record CompactReceiptHashInputs : Type 0 where
  pub request_nonce_hash : ℕ
  pub metadata_hash : ℕ
  pub provider_wallet : Pubkey
  pub payer_user : Pubkey
  pub usdc_mint : Pubkey
  pub prompt_tokens : ℕ
  pub completion_tokens : ℕ
  pub charge_atomic : ℕ

unfoldable pub receipt_preimage : CompactReceiptHashInputs → List ℕ
receipt_preimage i =
    compact_receipt_domain_separator
    ++ (to_le_bytes 32 i.request_nonce_hash
        ++ (to_le_bytes 32 i.metadata_hash
            ++ (to_le_bytes 32 i.provider_wallet
                ++ (to_le_bytes 32 i.payer_user
                    ++ (to_le_bytes 32 i.usdc_mint
                        ++ (to_le_bytes 8 i.prompt_tokens
                            ++ (to_le_bytes 8 i.completion_tokens
                                ++ to_le_bytes 8 i.charge_atomic)))))))

-- SHA-256 is a function of another library: the number that the 32 bytes of its result spell.
unfoldable pub build_compact_receipt_hash : (List ℕ → ℕ) → CompactReceiptHashInputs → ℕ
build_compact_receipt_hash hash inputs = hash (receipt_preimage inputs)

unfoldable pub validate_submit_receipt_args : SubmitReceiptArgs → Outcome (Unit {0})
validate_submit_receipt_args args =
    require (ltb (args.prompt_tokens + args.completion_tokens) (2 ^ 64))
      ErrorCode.invalid_token_totals

-- `1u8 << (attester_type as u8)`
unfoldable pub attester_type_mask : AttesterType → ℕ
attester_type_mask t = 2 ^ attester_type_code t

abbrev pub length : {A : Type 0} → List A → ℕ
length [] = 0
length (x ∷ xs) = suc (length xs)

abbrev pub drop : {A : Type 0} → ℕ → List A → List A
drop zero xs = xs
drop (suc n) [] = []
drop (suc n) (x ∷ xs) = drop n xs

abbrev pub take : {A : Type 0} → ℕ → List A → List A
take zero xs = []
take (suc n) [] = []
take (suc n) (x ∷ xs) = x ∷ take n xs

-- `read_slice`: `offset + len` is a sum of `usize` values below 2 ^ 17, which does not overflow.
unfoldable pub read_slice : List ℕ → ℕ → ℕ → Outcome (List ℕ)
read_slice bytes offset len = do
  require (leb (offset + len) (length bytes)) ErrorCode.ed25519_instruction_mismatch
  ok (take len (drop offset bytes))

abbrev pub le_pair : List ℕ → ℕ
le_pair [] = 0
le_pair (low ∷ []) = low
le_pair (low ∷ high ∷ rest) = low + 256 * high

unfoldable pub read_u16_le : List ℕ → ℕ → Outcome ℕ
unfolding read_slice
read_u16_le bytes offset = do pair ← read_slice bytes offset 2; ok (le_pair pair)

abbrev pub bytes_eq : List ℕ → List ℕ → Bool
bytes_eq [] [] = true
bytes_eq [] (y ∷ ys) = false
bytes_eq (x ∷ xs) [] = false
bytes_eq (x ∷ xs) (y ∷ ys) = x == y && bytes_eq xs ys

abbrev pub first_byte : List ℕ → ℕ
first_byte [] = 0
first_byte (x ∷ xs) = x

abbrev pub is_empty : {A : Type 0} → List A → Bool
is_empty [] = true
is_empty (x ∷ xs) = false

pub record Instruction : Type 0 where
  pub program_id : Pubkey
  pub accounts : List Pubkey
  pub bytes : List ℕ

-- What the instructions sysvar answers: the index of the running instruction, and the instruction at an
-- index of the transaction.
pub record InstructionsSysvar : Type 0 where
  pub current_index : Option ℕ
  pub instruction_at : ℕ → Option Instruction
  -- The address of the ed25519 program.
  pub ed25519_program : Pubkey

abbrev pub u16_max : ℕ
u16_max = 65_535

-- The offsets are below 2 ^ 16, and a signature's is read and not used.
unfoldable pub check_ed25519_bytes : List ℕ → Pubkey → ℕ → Outcome (Unit {0})
unfolding read_u16_le
check_ed25519_bytes bytes key message = do
  require (leb 16 (length bytes)) ErrorCode.ed25519_instruction_mismatch
  require (first_byte bytes == 1) ErrorCode.ed25519_instruction_mismatch
  signature_offset ← read_u16_le bytes 2
  signature_instruction_index ← read_u16_le bytes 4
  public_key_offset ← read_u16_le bytes 6
  public_key_instruction_index ← read_u16_le bytes 8
  message_data_offset ← read_u16_le bytes 10
  message_data_size ← read_u16_le bytes 12
  message_instruction_index ← read_u16_le bytes 14
  require
      (signature_instruction_index == u16_max
        && public_key_instruction_index == u16_max
        && message_instruction_index == u16_max)
      ErrorCode.ed25519_instruction_mismatch
  require (message_data_size == 32) ErrorCode.ed25519_instruction_mismatch
  public_key_bytes ← read_slice bytes public_key_offset 32
  message_bytes ← read_slice bytes message_data_offset message_data_size
  require (bytes_eq public_key_bytes (to_le_bytes 32 key)) ErrorCode.ed25519_instruction_mismatch
  require (bytes_eq message_bytes (to_le_bytes 32 message)) ErrorCode.ed25519_instruction_mismatch

unfoldable pub verify_preceding_ed25519_instruction :
    InstructionsSysvar → Pubkey → ℕ → Outcome (Unit {0})
verify_preceding_ed25519_instruction sysvar key message = do
  current_index ← ok_or sysvar.current_index missing
  require (ltb 0 current_index) ErrorCode.missing_ed25519_instruction
  ix ← ok_or (sysvar.instruction_at (current_index - 1)) missing
  require (ix.program_id == sysvar.ed25519_program) ErrorCode.missing_ed25519_instruction
  require (is_empty ix.accounts) ErrorCode.ed25519_instruction_mismatch
  check_ed25519_bytes ix.bytes key message
  where
    missing : Error
    missing = Error.attestation ErrorCode.missing_ed25519_instruction
