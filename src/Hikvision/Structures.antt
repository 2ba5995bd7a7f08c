-- ===== src/Hikvision/Structures.antt =====
-- `HikvisionMasterSector` of adapters/hikvision/structures.py. Offsets and sizes come from
-- unsigned fields and file sizes, so the tests for negative numbers have no counterpart.
pub mod Layout
pub mod Parsing
mod Tests
use sih.Common.{
  ℕ, ◌+◌, ◌-◌, ◌*◌, ◌%◌, Bool, true, false, not, ◌&&◌, ◌||◌, List, [], ◌∷◌, ◌++◌, String, length,
  take, ltb, leb, ◌==◌, if◌then◌else◌, Message, text, format, labelled, ErrorKind, Result, ok,
  raise_if, ◌>>=◌, ◌>>◌,
}
use sih.Common.Bytes.{Bytes, bytes_eq, read_u64, read_u32}
use sih.Common.Text.{codes}

abbrev pub hikvision_signature : Bytes
hikvision_signature = codes "HIKVISION@HANGZHOU"

abbrev pub master_sector_min_size : ℕ
master_sector_min_size = 0xe4

pub record MasterSector : Type 0 where
  pub signature_offset : ℕ
  pub filesystem_base_offset : ℕ
  pub hdd_capacity : ℕ
  pub system_log_offset : ℕ
  pub system_log_size : ℕ
  pub video_data_offset : ℕ
  pub data_block_size : ℕ
  pub total_data_blocks : ℕ
  pub primary_tree_offset : ℕ
  pub primary_tree_size : ℕ
  pub secondary_tree_offset : ℕ
  pub secondary_tree_size : ℕ
  pub initialization_time_raw : ℕ

abbrev refuse_if : Bool → Message → Result (Unit {0})
refuse_if c m = raise_if c ErrorKind.hikvision_format_error m

-- The reads of the constructor call in `from_bytes`.
pub read_fields : Bytes → ℕ → ℕ → Result MasterSector
read_fields sector signature_offset filesystem_base_offset = do
  hdd_capacity ← read_u64 sector 0x38
  system_log_offset ← read_u64 sector 0x50
  system_log_size ← read_u64 sector 0x58
  video_data_offset ← read_u64 sector 0x68
  data_block_size ← read_u64 sector 0x78
  total_data_blocks ← read_u64 sector 0x80
  primary_tree_offset ← read_u64 sector 0x88
  primary_tree_size ← read_u64 sector 0x90
  secondary_tree_offset ← read_u64 sector 0x98
  secondary_tree_size ← read_u64 sector 0xa0
  initialization_time_raw ← read_u32 sector 0xe0
  ok (record {
    signature_offset = signature_offset;
    filesystem_base_offset = filesystem_base_offset;
    hdd_capacity = hdd_capacity;
    system_log_offset = system_log_offset;
    system_log_size = system_log_size;
    video_data_offset = video_data_offset;
    data_block_size = data_block_size;
    total_data_blocks = total_data_blocks;
    primary_tree_offset = primary_tree_offset;
    primary_tree_size = primary_tree_size;
    secondary_tree_offset = secondary_tree_offset;
    secondary_tree_size = secondary_tree_size;
    initialization_time_raw = initialization_time_raw;
  })

-- `from_bytes`
pub from_bytes : Bytes → ℕ → ℕ → Result MasterSector
from_bytes sector signature_offset filesystem_base_offset = do
  refuse_if (ltb signature_offset filesystem_base_offset)
      (text "Filesystem base offset must be non-negative and precede the signature")
  refuse_if (ltb (length sector) master_sector_min_size) (
      format "Master sector is truncated: need {} bytes, observed {}"
        (master_sector_min_size ∷ length sector ∷ []))
  refuse_if (not (bytes_eq (take (length hikvision_signature) sector) hikvision_signature))
      (text "Hikvision master-sector signature is missing")
  read_fields sector signature_offset filesystem_base_offset

-- `if condition: warnings.append(message)`
abbrev pub warn_if : Bool → String → List Message
warn_if c m = if c then text m ∷ [] else []

-- `_validate_region`: what it appends to the warnings
pub validate_region : String → ℕ → ℕ → ℕ → List Message
validate_region label offset size filesystem_bytes =
    if size == 0
    then labelled label " region has zero length" ∷ []
    else if leb filesystem_bytes offset || ltb (filesystem_bytes - offset) size
    then labelled label " region is outside the available evidence image" ∷ []
    else []

-- The tests of `validate` on the declared capacity, the video region and the block size.
pub capacity_warnings : MasterSector → ℕ → List Message
capacity_warnings m source_size =
    if m.hdd_capacity == 0
    then text "Declared HDD capacity is zero" ∷ []
    else warn_if (ltb source_size m.hdd_capacity)
        "Declared HDD capacity exceeds the available evidence image"

pub block_warnings : MasterSector → List Message
block_warnings m =
    if m.data_block_size == 0
    then text "Video data-block size is zero" ∷ []
    else warn_if (not (m.data_block_size % 512 == 0)) "Video data-block size is not sector aligned"
      ++ warn_if (ltb (1024 * 1024 * 1024) m.data_block_size)
          "Video data-block size exceeds the one-GiB safety threshold"

pub span_warnings : MasterSector → ℕ → List Message
span_warnings m filesystem_bytes =
    if m.total_data_blocks == 0
    then text "Declared video data-block count is zero" ∷ []
    else if ltb 0 m.data_block_size && ltb m.video_data_offset filesystem_bytes
    then warn_if
        (ltb (filesystem_bytes - m.video_data_offset) (m.data_block_size * m.total_data_blocks))
        "Declared video block span exceeds the available evidence image"
    else []

-- `validate`
pub validate : MasterSector → ℕ → List Message
validate m source_size =
    if ltb source_size m.filesystem_base_offset
    then text "Filesystem base offset is outside the available evidence image" ∷ []
    else let filesystem_bytes = source_size - m.filesystem_base_offset in
      capacity_warnings m source_size
      ++ (warn_if (leb filesystem_bytes m.video_data_offset)
            "Video-data offset is outside the available evidence image"
          ++ (block_warnings m
              ++ (span_warnings m filesystem_bytes
                  ++ (validate_region "System-log" m.system_log_offset m.system_log_size
                        filesystem_bytes
                      ++ (validate_region "Primary HIKBTREE" m.primary_tree_offset
                            m.primary_tree_size filesystem_bytes
                          ++ validate_region "Secondary HIKBTREE" m.secondary_tree_offset
                              m.secondary_tree_size filesystem_bytes)))))
