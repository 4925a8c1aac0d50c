-- ===== src/Attestation/Protocol/Signature.antt =====
-- What a passed check of the ed25519 instruction says about the transaction.
use clawfarm_masterpool.Prelude.{
  ℕ, ◌+◌, ◌-◌, ◌≡◌, refl, sym, ap, ◌∙◌, inl, inr, Bool, true, false, ◌&&◌, some, List, [], ◌∷◌, ok,
  ◌>>◌, guard, leb, ◌==◌, arith, Option-cases, >>=-eq-ok,
}
use clawfarm_masterpool.Runtime.{Error, Outcome, same_key}
use clawfarm_masterpool.Attestation.Error.{ErrorCode}
use clawfarm_masterpool.Attestation.Utils.{
  length, to_le_bytes, bytes_eq, le_pair, take, drop, first_byte, Instruction, InstructionsSysvar,
  check_ed25519_bytes, read_u16_le, read_slice, u16_max, verify_preceding_ed25519_instruction,
}

pub bytes_eq_lem : (xs ys : List ℕ) → bytes_eq xs ys ≡ true → xs ≡ ys
bytes_eq_lem [] [] h = refl
bytes_eq_lem [] (y ∷ ys) h = cc
bytes_eq_lem (x ∷ xs) [] h = cc
bytes_eq_lem (x ∷ xs) (y ∷ ys) h = ground (arith, bytes_eq_lem xs ys)

-- The 16-bit number at an offset, the low byte first.
abbrev pub u16_at : List ℕ → ℕ → ℕ
u16_at bytes offset = le_pair (take 2 (drop offset bytes))

abbrev pub word_at : List ℕ → ℕ → List ℕ
word_at bytes offset = take 32 (drop offset bytes)

-- The bytes of an ed25519 instruction that has one signature, whose key and message of 32 bytes stand in
-- the instruction itself, at the offsets that it gives.
pub record IsSigning (bytes : List ℕ) (key message : ℕ) : Type 0 where
  pub signatures : first_byte bytes ≡ 1
  pub own_signature : u16_at bytes 4 ≡ 65_535
  pub own_key : u16_at bytes 8 ≡ 65_535
  pub own_message : u16_at bytes 14 ≡ 65_535
  pub size : u16_at bytes 12 ≡ 32
  pub key_bytes : word_at bytes (u16_at bytes 6) ≡ to_le_bytes 32 key
  pub message_bytes : word_at bytes (u16_at bytes 10) ≡ to_le_bytes 32 message

reads_slice :
    (bytes part : List ℕ) (offset len : ℕ)
    → read_slice bytes offset len ≡ ok part
    → part ≡ take len (drop offset bytes)
unfolding read_slice
reads_slice bytes part offset len h = ground arith

reads_u16 :
    (bytes : List ℕ) (offset n : ℕ) → read_u16_le bytes offset ≡ ok n → n ≡ u16_at bytes offset
unfolding read_u16_le read_slice
reads_u16 bytes offset n h = ground arith

abbrev bad : Error
bad = Error.attestation ErrorCode.ed25519_instruction_mismatch

passes :
    (b : Bool) (e : Error) {A : Type 0} (rest : Outcome A) {done : A}
    → (guard b e >> rest) ≡ ok done
    → (b ≡ true) × (rest ≡ ok done)
passes true e rest h = (refl, h)
passes false e rest h = cc

holds : (b : Bool) (e : Error) → guard b e ≡ ok tt → b ≡ true
holds true e h = refl
holds false e h = cc

check-IsSigning :
    (bytes : List ℕ) (key message : ℕ)
    → check_ed25519_bytes bytes key message ≡ ok tt
    → IsSigning bytes key message
unfolding check_ed25519_bytes
check-IsSigning bytes key message h =
    let (_, h₁) = passes (leb 16 (length bytes)) bad _ h in
    let (one, h₂) = passes (first_byte bytes == 1) bad _ h₁ in
    let (_, _, h₃) = >>=-eq-ok (read_u16_le bytes 2) _ h₂ in
    let (own, eo, h₄) = >>=-eq-ok (read_u16_le bytes 4) _ h₃ in
    let (at_key, ek, h₅) = >>=-eq-ok (read_u16_le bytes 6) _ h₄ in
    let (own_k, eok, h₆) = >>=-eq-ok (read_u16_le bytes 8) _ h₅ in
    let (at_message, em, h₇) = >>=-eq-ok (read_u16_le bytes 10) _ h₆ in
    let (size, es, h₈) = >>=-eq-ok (read_u16_le bytes 12) _ h₇ in
    let (own_m, eom, h₉) = >>=-eq-ok (read_u16_le bytes 14) _ h₈ in
    let (owns, k₁) = passes (own == u16_max && own_k == u16_max && own_m == u16_max) bad _ h₉ in
    let (sized, k₂) = passes (size == 32) bad _ k₁ in
    let (key_part, ep, k₃) = >>=-eq-ok (read_slice bytes at_key 32) _ k₂ in
    let (message_part, eq, k₄) = >>=-eq-ok (read_slice bytes at_message size) _ k₃ in
    let (same_key, k₅) = passes (bytes_eq key_part (to_le_bytes 32 key)) bad _ k₄ in
    let fk = bytes_eq_lem key_part (to_le_bytes 32 key) same_key in
    let fm =
      bytes_eq_lem message_part (to_le_bytes 32 message)
        (holds (bytes_eq message_part (to_le_bytes 32 message)) bad k₅) in
    let pk = reads_slice bytes key_part at_key 32 ep in
    let pm = reads_slice bytes message_part at_message size eq in
    let s32 : size ≡ 32 = ground arith in
    let ko = reads_u16 bytes 6 at_key ek in
    let mo = reads_u16 bytes 10 at_message em in
    record {
      signatures = ground arith;
      own_signature = sym (reads_u16 bytes 4 own eo) ∙ ground arith;
      own_key = sym (reads_u16 bytes 8 own_k eok) ∙ ground arith;
      own_message = sym (reads_u16 bytes 14 own_m eom) ∙ ground arith;
      size = sym (reads_u16 bytes 12 size es) ∙ s32;
      key_bytes = ap (word_at bytes) (sym ko) ∙ sym pk ∙ fk;
      message_bytes =
          ap (word_at bytes) (sym mo)
          ∙ ap (λ n. take n (drop at_message bytes)) (sym s32)
          ∙ sym pm
          ∙ fm;
    }

-- The instruction before the running one is such an instruction of the ed25519 program.
pub record IsSigned (sysvar : InstructionsSysvar) (key message : ℕ) : Type 0 where
  pub previous : ℕ
  pub instruction : Instruction
  pub current : sysvar.current_index ≡ some (previous + 1)
  pub found : sysvar.instruction_at previous ≡ some instruction
  pub program : instruction.program_id ≡ sysvar.ed25519_program
  pub signing : IsSigning instruction.bytes key message

pub verify-IsSigned :
    (sysvar : InstructionsSysvar) (key message : ℕ)
    → verify_preceding_ed25519_instruction sysvar key message ≡ ok tt
    → IsSigned sysvar key message
unfolding verify_preceding_ed25519_instruction
verify-IsSigned sysvar key message h = elim (Option-cases sysvar.current_index) [
  | inl e ↦ absurd (ground arith)
  | inr (n, e) ↦ elim (Option-cases (sysvar.instruction_at (n - 1))) [
    | inl f ↦ absurd (ground arith)
    | inr (ix, f) ↦ record {
      previous = n - 1;
      instruction = ix;
      current = ground arith;
      found = f;
      program = ground arith;
      signing = check-IsSigning ix.bytes key message (ground arith);
    }
  ]
]
