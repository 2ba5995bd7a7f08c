-- ===== src/Evidence/Hashing.antt =====
-- The streaming hash of evidence/source.py against the hash of the whole file.
use sih.Common.{
  ℕ, Bool, true, refl, All, ◌↔◌, ◌⊎◌, [], ◌∷◌, zero, suc, ◌+◌, ◌≤◌, ◌<◌, ◌≡◌, ap, ◌&&◌, ◌*◌, inl,
  inr, length, take, ok, ErrorKind, raise, text, arith, tests, Bool-cases, ltb, ◌==◌, take_add,
  take_all,
}
use sih.Common.Bytes.{Bytes, bytes_eq, bytes_eq→eq, bytes_eq_refl}
use sih.Common.Int.{pos}
use sih.Common.Text.{Text, strip, lower, all_hex}
use sih.Evidence.{int, Source, hash_loop, next_length, sha256, verify_sha256}
use sih.Evidence.Reads.{IsBacked, read_at_in}

module _ (s : Source) (content : Bytes) (b : IsBacked s content) (limit : 0 < s.max_read_size) where
  next_length_bounds :
      (chunk_size position : ℕ)
      → 0 < chunk_size
      → position < length content
      → let n = next_length s chunk_size position in
        (0 < n) × (n ≤ s.max_read_size) × (position + n ≤ length content)
  unfolding next_length
  next_length_bounds chunk_size position c more = ground (arith, b.size_eq)

  -- From any position the loop appends exactly what is left of the file.
  hash_loop_lem :
      (fuel chunk_size position : ℕ)
      → 0 < chunk_size
      → position ≤ length content
      → length content < fuel + position
      → hash_loop fuel s chunk_size position (take position content) ≡ ok content
  unfolding hash_loop
  hash_loop_lem zero chunk_size position c inside enough = absurd (omega arith)
  hash_loop_lem (suc fuel) chunk_size position c inside enough =
      elim (Bool-cases (ltb position s.size)) [
        | inl more ↦
            (let bounds = next_length_bounds chunk_size position c (omega (tests, b.size_eq)) in
              let n = next_length s chunk_size position in
              rw
                (
                  more,
                  hash_loop,
                  read_at_in s content position n b bounds.1 bounds.2,
                  ← take_add position n content,
                )
                (hash_loop_lem fuel chunk_size (position + n) c bounds.2 (omega arith)))
        | inr done ↦
            rw (done, hash_loop) (ap ok (take_all content position (omega (tests, b.size_eq))))
      ]

-- A digit 0-9 or a-f.
abbrev pub IsHexDigit : ℕ → Type 0
IsHexDigit c = ((48 ≤ c) × (c ≤ 57)) ⊎ ((97 ≤ c) × (c ≤ 102))

abbrev pub IsDigest : Text → Type 0
IsDigest s = (length s ≡ 64) × All IsHexDigit s

all_hex_iff : (s : Text) → (all_hex s ≡ true) ↔ All IsHexDigit s
all_hex_iff [] = (λ h. tt, λ h. refl)
all_hex_iff (c ∷ s) = (
  λ h. (ground arith, (all_hex_iff s).0 (ground arith)),
  λ h. ground (arith, h.0, (all_hex_iff s).1 h.1),
)

accepted_iff : (s : Text) → (((length s == 64) && all_hex s) ≡ true) ↔ IsDigest s
accepted_iff s = (
  λ h. (ground arith, (all_hex_iff s).0 (ground arith)),
  λ h. ground (arith, h.0, (all_hex_iff s).1 h.1),
)

module _ (hexdigest : Bytes → Text) where
  -- With any positive chunk size, and whatever the limit on a single read is, the streaming hash
  -- of an open source over an unchanged file terminates and is the hash of the file's bytes.
  pub sha256_lem :
      (s : Source) (content : Bytes) (chunk_size : ℕ)
      → IsBacked s content
      → 0 < s.max_read_size
      → 0 < chunk_size
      → sha256 hexdigest s (int (pos chunk_size)) ≡ ok (hexdigest content)
  unfolding sha256
  sha256_lem s content chunk_size b limit c =
      ground
        (arith, hash_loop_lem s content b limit (suc s.size) chunk_size 0 c, b.is_open, b.size_eq)

  -- Verification against an expected digest, whose surrounding space and letter case are ignored:
  -- where 64 digits 0-9 or a-f are left, it answers, and yes exactly if they are the hash of the
  -- file's bytes; on every other text it raises EvidenceSourceError.
  pub verify_sha256_lem :
      (s : Source) (content : Bytes) (expected : Text)
      → IsBacked s content
      → 0 < s.max_read_size
      → let normalized = lower (strip expected) in
        (IsDigest normalized
          × ((answer : Bool) × (verify_sha256 hexdigest s expected ≡ ok answer)
              × ((answer ≡ true) ↔ (hexdigest content ≡ normalized))))
        ⊎ ((¬ IsDigest normalized)
            × (verify_sha256 hexdigest s expected
                ≡ raise ErrorKind.evidence_source_error
                    (text "Expected SHA-256 digest must contain 64 hexadecimal characters")))
  unfolding verify_sha256
  verify_sha256_lem s content expected b limit =
      let normalized = lower (strip expected) in
      let hashed = sha256_lem s content (8 * 1024 * 1024) b limit (omega arith) in
      elim (Bool-cases ((length normalized == 64) && all_hex normalized)) [
        | inl digest ↦ inl (
          (accepted_iff normalized).0 digest,
          (
            bytes_eq (hexdigest content) normalized,
            ground (arith, hashed),
            (
              bytes_eq→eq (hexdigest content) normalized,
              λ same. rw same (bytes_eq_refl normalized),
            ),
          ),
        )
        | inr other ↦ inr (λ d. cc (other, (accepted_iff normalized).1 d), ground arith)
      ]
