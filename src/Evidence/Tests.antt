-- ===== src/Evidence/Tests.antt =====
-- Runs of the raw evidence source on a small file, and its theorems at that file.
use sih.Common.{
  ℕ, suc, zero, ◌+◌, ◌%◌, ◌≡◌, ◌↔◌, ◌⊎◌, Bool, refl, true, false, [], ◌∷◌, length, slice, ok, raise,
  ErrorKind, text, arith,
}
use sih.Common.Bytes.{Bytes}
use sih.Common.Ensures.{Ensures}
use sih.Common.Int.{pos, negsuc}
use sih.Common.Text.{Text, codes, strip, lower, is_space, lstrip, rstrip}
use sih.Evidence.{
  int, bool, PathState, Source, open_source, value, validate_range, read_at, readable, sha256,
  verify_sha256, close, hash_loop, next_length,
}
use sih.Evidence.Readable.{IsImage}
use sih.Evidence.Reads.{
  IsBacked, InRange, IsSourceError, validate_range-Ensures, read_at_sound, readable-IsImage,
}
use sih.Evidence.Hashing.{IsDigest, sha256_lem, verify_sha256_lem}

abbrev content : Bytes
content = 10 ∷ 20 ∷ 30 ∷ 40 ∷ 50 ∷ []

abbrev source : Source
source = record {
  size = 5;
  max_read_size = 2;
  closed = false;
  pread = λ n o. ok (slice content o n);
}

abbrev path : PathState
path = record {
  resolves = true;
  is_file = true;
  opens = true;
  is_file_after_open = true;
  st_size = 5;
  pread = λ n o. ok (slice content o n);
}

-- A stand-in for SHA-256 that gives 64 equal digits.
abbrev repeated : ℕ → ℕ → Text
repeated zero c = []
repeated (suc n) c = c ∷ repeated n c

abbrev sum : Bytes → ℕ
sum [] = 0
sum (b ∷ bs) = b + sum bs

abbrev toy_hexdigest : Bytes → Text
toy_hexdigest bs = repeated 64 (48 + sum bs % 7)

open_source_small : open_source path (int (pos 2)) ≡ ok source
unfolding open_source
open_source_small = refl

open_source_bool :
    open_source path (bool true)
    ≡ raise ErrorKind.evidence_source_error (text "Maximum read size must be a positive integer")
unfolding open_source
open_source_bool = refl

read_at_closed :
    read_at (close source) (int (pos 0)) (int (pos 1))
    ≡ raise ErrorKind.evidence_source_error (text "Evidence source is closed")
unfolding read_at validate_range close
read_at_closed = refl

read_at_short :
    read_at (record source { pread = λ n o. ok [] }) (int (pos 0)) (int (pos 1))
    ≡ raise ErrorKind.evidence_source_error (text "Unexpected short read from evidence source")
unfolding read_at validate_range
read_at_short = refl

source-IsBacked : IsBacked source content
source-IsBacked = record { is_open = refl; size_eq = refl; pread_eq = λ n o h. refl }

validate_range-Ensures_example :
    ((validate_range source (int (pos 3)) (int (pos 2)) ≡ ok tt)
      ↔ InRange source (int (pos 3)) (int (pos 2)))
    × Ensures IsSourceError (λ _. Unit {0}) (validate_range source (int (pos 3)) (int (pos 2)))
validate_range-Ensures_example = validate_range-Ensures source (int (pos 3)) (int (pos 2))

validate_range_negative :
    validate_range source (int (pos 3)) (int (negsuc 0))
    ≡ raise ErrorKind.evidence_source_error (text "Offset and length cannot be negative")
unfolding validate_range
validate_range_negative = refl

read_at_two : read_at source (int (pos 1)) (int (pos 2)) ≡ ok (20 ∷ 30 ∷ [])
unfolding read_at validate_range
read_at_two = refl

read_at_sound_example :
    InRange source (int (pos 1)) (int (pos 2))
    × (length {A = ℕ} (20 ∷ 30 ∷ []) ≡ value (int (pos 2)))
read_at_sound_example = read_at_sound source (int (pos 1)) (int (pos 2)) (20 ∷ 30 ∷ []) read_at_two

readable-IsImage_example : IsImage (readable source) content 2
readable-IsImage_example = readable-IsImage source content source-IsBacked (omega arith)

sha256_lem_example : sha256 toy_hexdigest source (int (pos 3)) ≡ ok (toy_hexdigest content)
sha256_lem_example =
    sha256_lem toy_hexdigest source content 3 source-IsBacked (omega arith) (omega arith)

-- 64 threes, which the content hashes to.
abbrev expected : Text
expected = codes "3333333333333333333333333333333333333333333333333333333333333333"

verify_sha256_run : verify_sha256 toy_hexdigest source expected ≡ ok true
unfolding verify_sha256 sha256 hash_loop next_length read_at validate_range strip lstrip rstrip
    is_space lower
verify_sha256_run = refl

verify_sha256_lem_example :
    (IsDigest (lower (strip expected))
      × ((answer : Bool) × (verify_sha256 toy_hexdigest source expected ≡ ok answer)
          × ((answer ≡ true) ↔ (toy_hexdigest content ≡ lower (strip expected)))))
    ⊎ ((¬ IsDigest (lower (strip expected)))
        × (verify_sha256 toy_hexdigest source expected
            ≡ raise ErrorKind.evidence_source_error
                (text "Expected SHA-256 digest must contain 64 hexadecimal characters")))
verify_sha256_lem_example =
    verify_sha256_lem toy_hexdigest source content expected source-IsBacked (omega arith)
