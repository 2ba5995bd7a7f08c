-- ===== src/Evidence/Readable.antt =====
-- `ReadableEvidence` of adapters/base.py: what every adapter may ask of an evidence image, and
-- the laws that the adapters' parsers rely on.
use sih.Common.{ℕ, ◌+◌, ◌≤◌, ◌≡◌, Result, ok, length, slice, All}
use sih.Common.Bytes.{Bytes, IsByte}

pub record ReadableEvidence : Type 0 where
  pub size : ℕ
  pub read_at : ℕ → ℕ → Result Bytes

-- The evidence stands for `content`: a read of at most `limit` bytes inside it returns them.
pub record IsImage (e : ReadableEvidence) (content : Bytes) (limit : ℕ) : Type 0 where
  pub size_eq : e.size ≡ length content
  pub read_eq :
      (o n : ℕ) → n ≤ limit → o + n ≤ length content → e.read_at o n ≡ ok (slice content o n)
  pub bytes : All IsByte content
