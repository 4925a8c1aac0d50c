-- ===== src/Attestation/Protocol/Preimage.antt =====
-- The bytes that a receipt is hashed from determine the receipt.
use clawfarm_masterpool.Prelude.{
  ℕ, zero, suc, ◌/◌, ◌%◌, ◌^◌, ◌<◌, ◌≡◌, refl, sym, ap, ◌∙◌, List, [], ◌∷◌, ◌++◌, arith,
}
use clawfarm_masterpool.Attestation.Utils.{
  to_le_bytes, compact_receipt_domain_separator, CompactReceiptHashInputs, receipt_preimage, length,
}
use mathlib.Core.List.{append_cancel_left}

abbrev head : List ℕ → ℕ
head [] = 0
head (x ∷ xs) = x

abbrev tail : List ℕ → List ℕ
tail [] = []
tail (x ∷ xs) = xs

append_inj :
    (xs ys zs ws : List ℕ) → length xs ≡ length ys → xs ++ zs ≡ ys ++ ws → (xs ≡ ys) × (zs ≡ ws)
append_inj [] [] zs ws e h = (refl, h)
append_inj [] (y ∷ ys) zs ws e h = absurd (omega (arith, e))
append_inj (x ∷ xs) [] zs ws e h = absurd (omega (arith, e))
append_inj (x ∷ xs) (y ∷ ys) zs ws e h =
    let (f, g) = append_inj xs ys zs ws (omega (arith, e)) (ap tail h) in
    let k : x ≡ y = ap head h in (cc, g)

length-to_le_bytes : (w n : ℕ) → length (to_le_bytes w n) ≡ w
unfolding to_le_bytes
length-to_le_bytes zero n = refl
length-to_le_bytes (suc w) n = ap suc (length-to_le_bytes w (n / 256))

pub to_le_bytes_inj :
    (w n m : ℕ) → n < 256 ^ w → m < 256 ^ w → to_le_bytes w n ≡ to_le_bytes w m → n ≡ m
unfolding to_le_bytes
to_le_bytes_inj zero n m p q h = omega arith
to_le_bytes_inj (suc w) n m p q h =
    let low : n % 256 ≡ m % 256 = ap head h in
    let high = to_le_bytes_inj w (n / 256) (m / 256) (grind arith) (grind arith) (ap tail h) in
    omega (arith, low, high)

-- A field of `w` bytes in front of the rest.
field :
    (w n m : ℕ) (zs ws : List ℕ)
    → n < 256 ^ w
    → m < 256 ^ w
    → to_le_bytes w n ++ zs ≡ to_le_bytes w m ++ ws
    → (n ≡ m) × (zs ≡ ws)
field w n m zs ws p q h =
    let (f, g) = append_inj _ _ zs ws (length-to_le_bytes w n ∙ sym (length-to_le_bytes w m)) h in
    (to_le_bytes_inj w n m p q f, g)

-- Fields of 32 and of 8 bytes hold numbers of that size.
pub record IsSized (i : CompactReceiptHashInputs) : Type 0 where
  pub request_nonce_hash : i.request_nonce_hash < 2 ^ 256
  pub metadata_hash : i.metadata_hash < 2 ^ 256
  pub provider_wallet : i.provider_wallet < 2 ^ 256
  pub payer_user : i.payer_user < 2 ^ 256
  pub usdc_mint : i.usdc_mint < 2 ^ 256
  pub prompt_tokens : i.prompt_tokens < 2 ^ 64
  pub completion_tokens : i.completion_tokens < 2 ^ 64
  pub charge_atomic : i.charge_atomic < 2 ^ 64

-- Two receipts whose hashes and addresses are of 32 bytes and whose counts and charge are of 64 bits, and that
-- are hashed from the same bytes, are the same in every field: the nonce, the metadata, both parties, the
-- mint, the token counts and the charge.
pub receipt_preimage_inj :
    (i j : CompactReceiptHashInputs)
    → IsSized i
    → IsSized j
    → receipt_preimage i ≡ receipt_preimage j
    → i ≡ j
unfolding receipt_preimage
receipt_preimage_inj i j p q h =
    let h₀ = append_cancel_left compact_receipt_domain_separator _ _ h in
    let (a, h₁) = field 32 _ _ _ _ p.request_nonce_hash q.request_nonce_hash h₀ in
    let (b, h₂) = field 32 _ _ _ _ p.metadata_hash q.metadata_hash h₁ in
    let (c, h₃) = field 32 _ _ _ _ p.provider_wallet q.provider_wallet h₂ in
    let (d, h₄) = field 32 _ _ _ _ p.payer_user q.payer_user h₃ in
    let (e, h₅) = field 32 _ _ _ _ p.usdc_mint q.usdc_mint h₄ in
    let (f, h₆) = field 8 _ _ _ _ p.prompt_tokens q.prompt_tokens h₅ in
    let (g, h₇) = field 8 _ _ _ _ p.completion_tokens q.completion_tokens h₆ in
    let k = to_le_bytes_inj 8 _ _ p.charge_atomic q.charge_atomic h₇ in cc
