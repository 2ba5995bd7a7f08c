-- ===== src/Evidence/Reads.antt =====
-- Bounded reads of evidence/source.py: what `read_at` accepts and refuses.
use sih.Common.{
  ℕ, ◌+◌, ◌≤◌, ◌≡◌, ◌↔◌, refl, false, inl, inr, length, slice, length-slice_in, ok, ErrorKind,
  arith, All, Result-cases,
}
use sih.Common.Bytes.{Bytes, IsByte}
use sih.Common.Ensures.{Ensures, Ensures-value, Ensures-weaken}
use sih.Common.Int.{pos}
use sih.Evidence.Readable.{IsImage}
use sih.Evidence.{Argument, int, value, Source, validate_range, read_at, readable}

-- The file behind the descriptor holds `content` and did not change since it was opened.
pub record IsBacked (s : Source) (content : Bytes) : Type 0 where
  pub is_open : s.closed ≡ false
  pub size_eq : s.size ≡ length content
  pub pread_eq : (n o : ℕ) → o + n ≤ length content → s.pread n o ≡ ok (slice content o n)

-- The arguments name a range that the source allows.
pub record InRange (s : Source) (offset count : Argument) : Type 0 where
  pub is_open : s.closed ≡ false
  pub offset_eq : offset ≡ int (pos (value offset))
  pub count_eq : count ≡ int (pos (value count))
  pub limited : value count ≤ s.max_read_size
  pub inside : value offset + value count ≤ s.size

abbrev pub IsSourceError : ErrorKind → Type 0
IsSourceError k = k ≡ ErrorKind.evidence_source_error

validate_range-InRange :
    (s : Source) (offset count : Argument)
    → Ensures IsSourceError (λ _. InRange s offset count) (validate_range s offset count)
unfolding validate_range
validate_range-InRange s (int (pos o)) (int (pos n)) = ground arith
validate_range-InRange s offset count = ground arith

pub validate_range_in :
    (s : Source) (offset count : Argument)
    → InRange s offset count
    → validate_range s offset count ≡ ok tt
unfolding validate_range
validate_range_in s (int (pos o)) (int (pos n)) r = ground arith
validate_range_in s offset count r = ground arith

-- The guards let exactly the ranges inside an open source and within its limit pass, and what they
-- raise on any other arguments is EvidenceSourceError.
pub validate_range-Ensures :
    (s : Source) (offset count : Argument)
    → ((validate_range s offset count ≡ ok tt) ↔ InRange s offset count)
      × Ensures IsSourceError (λ _. Unit {0}) (validate_range s offset count)
validate_range-Ensures s offset count = (
  (
    λ passed. Ensures-value _ (validate_range-InRange s offset count) tt passed,
    validate_range_in s offset count,
  ),
  Ensures-weaken _ (λ _ range. tt) (validate_range-InRange s offset count),
)

-- Whatever the operating system answers, a read that returns returns exactly as many bytes as
-- were asked for, from a range inside an open source and within the limit.
pub read_at_sound :
    (s : Source) (offset count : Argument) (chunk : Bytes)
    → read_at s offset count ≡ ok chunk
    → InRange s offset count × (length chunk ≡ value count)
unfolding read_at
read_at_sound s offset count chunk h = elim (Result-cases (validate_range s offset count)) [
  | inl (v, e) ↦ (Ensures-value _ (validate_range-InRange s offset count) v e, ground arith)
  | inr (x, e) ↦ ground arith
]

-- On an open source whose file did not change, a read inside it and within the limit returns the
-- bytes of the file.
pub read_at_in :
    (s : Source) (content : Bytes) (o n : ℕ)
    → IsBacked s content
    → n ≤ s.max_read_size
    → o + n ≤ length content
    → read_at s (int (pos o)) (int (pos n)) ≡ ok (slice content o n)
unfolding read_at
read_at_in s content o n b limit inside = ground (
  arith,
  validate_range_in s (int (pos o)) (int (pos n)) (record {
    is_open = b.is_open;
    offset_eq = refl;
    count_eq = refl;
    limited = limit;
    inside = omega (arith, b.size_eq);
  }),
  b.pread_eq n o inside,
  length-slice_in content o n inside,
)

-- An open source over an unchanged file is an image of it to every adapter.
pub readable-IsImage :
    (s : Source) (content : Bytes)
    → IsBacked s content
    → All IsByte content
    → IsImage (readable s) content s.max_read_size
unfolding readable
readable-IsImage s content b bytes = record {
  size_eq = b.size_eq;
  read_eq = λ o n limit inside. read_at_in s content o n b limit inside;
  bytes = bytes;
}
