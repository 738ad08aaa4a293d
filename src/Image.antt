-- ===== src/Image.antt =====
-- services/enrichment/app/images.py: what an image must be to be read.
mod Tests
use challanse_website.Prelude.{
  ℕ, String, ◌≡◌, ◌↔◌, List, arith, ◌≤◌, ◌<◌, ◌||◌, ltb, ◌==◌, ◌!=◌, length, if◌then◌else◌,
  string_eq, nat_eq,
}

-- What PIL makes of the bytes: a WebP that verifies, another format, `UnidentifiedImageError` or
-- `OSError`, or another exception by its name.
pub data Decoded : Type 0 where
  webp other_format undecodable : Decoded
  raised : String → Decoded

-- How a check ends: it passes, or `InvalidReceiptImage` with its message, or another exception.
pub data Check : Type 0 where
  passed : Check
  invalid : String → Check
  failed : String → Check

decode_check : Decoded → Check
decode_check webp = passed
decode_check other_format = invalid "image_format_not_webp"
decode_check undecodable = invalid "image_decode_failed"
decode_check (raised e) = failed e

module _ (sha256 : List ℕ → String) (decode : List ℕ → Decoded) where
  unfoldable pub verify_webp : List ℕ → String → ℕ → ℕ → Check
  unfolding decode_check
  verify_webp image expected_sha256 expected_bytes maximum_bytes =
      if length image == 0 || length image != expected_bytes || ltb maximum_bytes (length image)
      then invalid "image_size_mismatch"
      else if sha256 image != expected_sha256
      then invalid "image_checksum_mismatch"
      else decode_check (decode image)

  -- An image passes exactly when it is not empty, has the announced length within the limit and
  -- the announced checksum, and PIL verifies it as WebP.
  pub verify_webp_iff :
      (image : List ℕ) (sha : String) (bytes maximum : ℕ)
      → (verify_webp image sha bytes maximum ≡ passed) ↔ (
          (0 < length image)
          × (length image ≡ bytes)
          × (length image ≤ maximum)
          × (sha256 image ≡ sha)
          × (decode image ≡ webp))
  unfolding verify_webp
  verify_webp_iff image sha bytes maximum = (
    (λ h. ground (arith, string_eq.same_iff (sha256 image) sha)),
    (λ h. ground (arith, string_eq.same_iff (sha256 image) sha)),
  )
