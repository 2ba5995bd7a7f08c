-- ===== src/Hikvision/Structures/Parsing.antt =====
-- Parsing a master sector: totality, the errors, and where each field is read.
use sih.Common.{ℕ, ◌≤◌, ◌≡◌, refl, not, arith, tests, ltb, ErrorKind, length, slice, take, ok}
use sih.Common.Bytes.{Bytes, from_little, unpack_from_in, bytes_eq, bytes_eq→eq}
use sih.Common.Ensures.{Ensures, Ensures-eq, Ensures-raise_if}
use sih.Hikvision.Structures.{
  MasterSector, hikvision_signature, master_sector_min_size, read_fields, from_bytes,
}

abbrev pub IsFormatError : ErrorKind → Type 0
IsFormatError k = k ≡ ErrorKind.hikvision_format_error

abbrev pub u64_at : Bytes → ℕ → ℕ
u64_at bs o = from_little (slice bs o 8)

abbrev pub u32_at : Bytes → ℕ → ℕ
u32_at bs o = from_little (slice bs o 4)

-- The documented layout of the master sector.
abbrev pub sector_of : Bytes → ℕ → ℕ → MasterSector
sector_of bs signature_offset base = record {
  signature_offset = signature_offset;
  filesystem_base_offset = base;
  hdd_capacity = u64_at bs 0x38;
  system_log_offset = u64_at bs 0x50;
  system_log_size = u64_at bs 0x58;
  video_data_offset = u64_at bs 0x68;
  data_block_size = u64_at bs 0x78;
  total_data_blocks = u64_at bs 0x80;
  primary_tree_offset = u64_at bs 0x88;
  primary_tree_size = u64_at bs 0x90;
  secondary_tree_offset = u64_at bs 0x98;
  secondary_tree_size = u64_at bs 0xa0;
  initialization_time_raw = u32_at bs 0xe0;
}

read_fields_lem :
    (bs : Bytes) (signature_offset base : ℕ)
    → master_sector_min_size ≤ length bs
    → read_fields bs signature_offset base ≡ ok (sector_of bs signature_offset base)
unfolding read_fields
read_fields_lem bs signature_offset base h = rw (
  unpack_from_in 8 bs 0x38 (omega arith),
  unpack_from_in 8 bs 0x50 (omega arith),
  unpack_from_in 8 bs 0x58 (omega arith),
  unpack_from_in 8 bs 0x68 (omega arith),
  unpack_from_in 8 bs 0x78 (omega arith),
  unpack_from_in 8 bs 0x80 (omega arith),
  unpack_from_in 8 bs 0x88 (omega arith),
  unpack_from_in 8 bs 0x90 (omega arith),
  unpack_from_in 8 bs 0x98 (omega arith),
  unpack_from_in 8 bs 0xa0 (omega arith),
  unpack_from_in 4 bs 0xe0 (omega arith),
)

-- What a parsed master sector has established about the bytes.
pub record IsParsed (bs : Bytes) (signature_offset base : ℕ) (m : MasterSector) : Type 0 where
  pub fields : m ≡ sector_of bs signature_offset base
  pub base_before : base ≤ signature_offset
  pub long_enough : master_sector_min_size ≤ length bs
  pub signed : take 18 bs ≡ hikvision_signature

-- `from_bytes` is total: it raises HikvisionFormatError, or returns the fields of the documented
-- layout of a long enough sector that begins with the signature, behind its base. It never
-- reads past the bytes that it was given.
pub from_bytes-Ensures :
    (bs : Bytes) (signature_offset base : ℕ)
    → Ensures IsFormatError
        (IsParsed bs signature_offset base)
        (from_bytes bs signature_offset base)
unfolding from_bytes
from_bytes-Ensures bs signature_offset base =
    Ensures-raise_if (ltb signature_offset base) _ _ _ refl λ before.
      Ensures-raise_if (ltb (length bs) master_sector_min_size) _ _ _ refl λ long.
        Ensures-raise_if (not (bytes_eq (take 18 bs) hikvision_signature)) _ _ _ refl λ signed.
          Ensures-eq _ (sector_of bs signature_offset base)
            (read_fields_lem bs signature_offset base (omega tests))
            (record {
              fields = refl;
              base_before = omega tests;
              long_enough = omega tests;
              signed = bytes_eq→eq _ _ (ground arith);
            })
