-- ===== src/Evidence.antt =====
-- `RawEvidenceSource` of evidence/source.py. The operating system enters as what `os.pread`
-- returns on the descriptor; a Python argument that is no integer is `other`.
pub mod Readable
pub mod Reads
pub mod Hashing
mod Tests
use sih.Common.{
  ℕ, zero, suc, ◌+◌, ◌-◌, ◌*◌, min, String, Bool, true, false, not, ◌||◌, ◌++◌, [], length, ltb,
  ◌==◌, if◌then◌else◌, Result, ok, raise, raise_if, ◌>>=◌, ◌>>◌, text, ErrorKind,
}
use sih.Common.Bytes.{Bytes, bytes_eq}
use sih.Common.Int.{ℤ, pos, negsuc}
use sih.Common.Text.{Text, strip, lower, all_hex}
use sih.Evidence.Readable.{ReadableEvidence}

pub data Argument : Type 0 where
  int : ℤ → Argument
  bool : Bool → Argument
  other : Argument

abbrev pub is_bool : Argument → Bool
is_bool (bool b) = true
is_bool _ = false

abbrev pub is_int : Argument → Bool
is_int (int z) = true
is_int _ = false

-- A value that is not ordered with the integers.
abbrev is_other : Argument → Bool
is_other other = true
is_other _ = false

-- A Boolean is an integer to `isinstance`, and is refused before.
abbrev pub is_negative : Argument → Bool
is_negative (int (negsuc n)) = true
is_negative _ = false

-- The value of an argument that passed the guards.
abbrev pub value : Argument → ℕ
value (int (pos n)) = n
value _ = 0

-- `x <= 0`
abbrev pub is_nonpositive : Argument → Bool
is_nonpositive a = value a == 0

-- What the path leads to, as the calls of the constructor observe it.
pub record PathState : Type 0 where
  pub resolves : Bool
  pub is_file : Bool
  pub opens : Bool
  pub is_file_after_open : Bool
  pub st_size : ℕ
  pub pread : ℕ → ℕ → Result Bytes

pub record Source : Type 0 where
  pub size : ℕ
  pub max_read_size : ℕ
  pub closed : Bool
  -- `os.pread(descriptor, length, offset)`
  pub pread : ℕ → ℕ → Result Bytes

abbrev refuse_if : Bool → String → Result (Unit {0})
refuse_if c m = raise_if c ErrorKind.evidence_source_error (text m)

-- `RawEvidenceSource.__init__`
pub open_source : PathState → Argument → Result Source
open_source path max_read_size = do
  raise_if (not path.resolves) ErrorKind.os_error (text "No such file or directory")
  refuse_if (not path.is_file) "Evidence source must be a regular file"
  raise_if (is_other max_read_size) ErrorKind.type_error (text "'<=' not supported")
  refuse_if (is_bool max_read_size || is_nonpositive max_read_size)
      "Maximum read size must be a positive integer"
  raise_if (not path.opens) ErrorKind.os_error (text "cannot open")
  refuse_if (not path.is_file_after_open) "Evidence source must remain a regular file"
  ok (record {
    size = path.st_size;
    max_read_size = value max_read_size;
    closed = false;
    pread = path.pread;
  })

-- `close`
pub close : Source → Source
close s = record s { closed = true }

-- `_validate_range`
unfoldable pub validate_range : Source → Argument → Argument → Result (Unit {0})
validate_range s offset length = do
  refuse_if s.closed "Evidence source is closed"
  refuse_if (is_bool offset || is_bool length) "Offset and length must be integers"
  refuse_if (not (is_int offset) || not (is_int length)) "Offset and length must be integers"
  refuse_if (is_negative offset || is_negative length) "Offset and length cannot be negative"
  refuse_if (ltb s.max_read_size (value length))
      "Requested read exceeds the configured safety limit"
  refuse_if (ltb s.size (value offset) || ltb (s.size - value offset) (value length))
      "Requested range is outside the evidence source"

-- `read_at`
unfoldable pub read_at : Source → Argument → Argument → Result Bytes
read_at s offset count = do
  validate_range s offset count
  if value count == 0 then ok [] else do
    chunk ← s.pread (value count) (value offset)
    refuse_if (not (length chunk == value count)) "Unexpected short read from evidence source"
    ok chunk

-- The source as the protocol that the adapters read through.
unfoldable pub readable : Source → ReadableEvidence
readable s = record { size = s.size; read_at = λ o n. read_at s (int (pos o)) (int (pos n)) }

-- The length of the next read in `sha256`.
pub next_length : Source → ℕ → ℕ → ℕ
next_length s chunk_size position =
    let wanted = min chunk_size (s.size - position) in
    if ltb s.max_read_size wanted then s.max_read_size else wanted

-- The loop of `sha256`, on the bytes that the digest was updated with so far.
pub hash_loop : ℕ → Source → ℕ → ℕ → Bytes → Result Bytes
hash_loop zero s chunk_size position fed = raise ErrorKind.out_of_fuel (text "")
hash_loop (suc fuel) s chunk_size position fed = elim (ltb position s.size) [
  | true ↦ (do
    let count = next_length s chunk_size position
    chunk ← read_at s (int (pos position)) (int (pos count))
    hash_loop fuel s chunk_size (position + count) (fed ++ chunk))
  | false ↦ ok fed
]

-- The digest is a function of what it was updated with, in the order of the updates.
module _ (hexdigest : Bytes → Text) where
  -- `sha256`
  pub sha256 : Source → Argument → Result Text
  sha256 s chunk_size = do
    refuse_if s.closed "Evidence source is closed"
    refuse_if (is_bool chunk_size || not (is_int chunk_size) || is_nonpositive chunk_size)
        "Hash chunk size must be a positive integer"
    fed ← hash_loop (suc s.size) s (value chunk_size) 0 []
    ok (hexdigest fed)

  abbrev pub default_chunk_size : Argument
  default_chunk_size = int (pos (8 * 1024 * 1024))

  -- `verify_sha256`
  pub verify_sha256 : Source → Text → Result Bool
  verify_sha256 s expected_digest = do
    let normalized = lower (strip expected_digest)
    refuse_if (not (length normalized == 64) || not (all_hex normalized))
        "Expected SHA-256 digest must contain 64 hexadecimal characters"
    digest ← sha256 s default_chunk_size
    ok (bytes_eq digest normalized)
