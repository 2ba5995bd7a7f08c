-- ===== src/Hikvision/Adapter.antt =====
-- `HikvisionAdapter` of adapters/hikvision/adapter.py: detection, the master sector and the
-- enumeration of recordings. The constructor's two numbers are arguments.
mod Find
pub mod Scan
pub mod Recordings
pub mod Probe
pub mod Confidence
pub mod Extraction
mod Tests
use sih.Common.{
  ℕ, zero, suc, ◌+◌, ◌-◌, ◌*◌, ◌/◌, ◌%◌, ◌^◌, min, max, Bool, true, false, not, ◌&&◌, ◌||◌, Option,
  none, some, String, List, [], ◌∷◌, ◌++◌, length, drop, slice, ltb, leb, ◌==◌, if◌then◌else◌,
  Message, text, format, ErrorKind, Result, ok, err, raise, raise_if, ◌>>=◌, ◌>>◌,
}
use sih.Common.Bytes.{Bytes, bytes_eq, find, from_little}
use sih.Common.Text.{Text, codes}
use sih.Evidence.Readable.{ReadableEvidence}
use sih.Adapter.{
  RecordingState, active, uncertain, PhysicalExtent, checked_extent, RecordingDescriptor,
  checked_recording,
}
use sih.Hikvision.Structures.{hikvision_signature, master_sector_min_size, MasterSector, from_bytes}
use sih.Hikvision.Hikbtree.Entry.{DataEntry, ParseResult, is_video, state, is_partial}
use sih.Hikvision.Hikbtree.Reader.{make_parser, default_max_pages, default_max_entries}
use sih.Hikvision.Hikbtree.{parse}

-- The loop of `_find_signature`, on fuel.
unfoldable pub scan_from : ℕ → ReadableEvidence → ℕ → ℕ → Bytes → ℕ → Result (Option ℕ)
scan_from zero source chunk_size scan_length overlap position =
    raise ErrorKind.out_of_fuel (text "")
scan_from (suc fuel) source chunk_size scan_length overlap position =
    elim (ltb position scan_length) [
      | false ↦ ok none
      | true ↦ (do
        let read_length = min chunk_size (scan_length - position)
        chunk ← source.read_at position read_length
        let searchable = overlap ++ chunk
        elim (find hikvision_signature searchable) [
          | some match_index ↦ ok (some (position - length overlap + match_index))
          | none ↦
              let overlap_size = min (length hikvision_signature - 1) (length searchable) in
              scan_from fuel source chunk_size scan_length
                (drop (length searchable - overlap_size) searchable) (position + read_length)
        ])
    ]

-- `_find_signature`
unfoldable pub find_signature : ℕ → ℕ → ReadableEvidence → Result (Option ℕ)
find_signature scan_limit scan_chunk_size source =
    let scan_length = min source.size scan_limit in
    scan_from (suc scan_length) source scan_chunk_size scan_length [] 0

-- The loop of `_filesystem_base_offset` over the partition entries of the boot record.
unfoldable pub partition_base : List ℕ → Bytes → ℕ → ℕ
partition_base [] mbr signature_offset = 0
partition_base (index ∷ rest) mbr signature_offset =
    let later = partition_base rest mbr signature_offset in
    let entry_offset = 0x1be + index * 16 in
    let start_sector = from_little (slice mbr (entry_offset + 8) 4) in
    let sector_count = from_little (slice mbr (entry_offset + 12) 4) in
    let partition_start = start_sector * 512 in
    let partition_end = partition_start + sector_count * 512 in
    if start_sector == 0 || sector_count == 0
    then later
    else if leb partition_start signature_offset && ltb signature_offset partition_end
    then partition_start
    else later

abbrev pub partition_indexes : List ℕ
partition_indexes = 0 ∷ 1 ∷ 2 ∷ 3 ∷ []

-- `_filesystem_base_offset`
unfoldable pub filesystem_base_offset : ReadableEvidence → ℕ → Result ℕ
filesystem_base_offset source signature_offset = if ltb source.size 512 then ok 0 else do
  mbr ← source.read_at 0 512
  ok (
      if not (bytes_eq (slice mbr 510 2) (0x55 ∷ 0xaa ∷ []))
      then 0
      else partition_base partition_indexes mbr signature_offset)

-- `_read_master_sector`
unfoldable pub read_master_sector : ReadableEvidence → ℕ → ℕ → Result MasterSector
read_master_sector source signature_offset base = do
  sector ←
      source.read_at signature_offset (min master_sector_min_size (source.size - signature_offset))
  from_bytes sector signature_offset base

-- `parse_master_sector`
unfoldable pub parse_master_sector : ℕ → ℕ → ReadableEvidence → Result MasterSector
parse_master_sector scan_limit scan_chunk_size source = do
  found ← find_signature scan_limit scan_chunk_size source
  elim found [
    | none ↦
        raise ErrorKind.hikvision_format_error (text "Hikvision filesystem signature was not found")
    | some signature_offset ↦ (do
      base ← filesystem_base_offset source signature_offset
      read_master_sector source signature_offset base)
  ]

-- `_timestamp`, in Unix seconds
unfoldable pub timestamp : ℕ → Option ℕ
timestamp raw = if raw == 0 || (raw == 0x7fff_ffff || raw == 0xffff_ffff) then none else some raw

-- What `enumerate_recordings` derives from the timestamps of an entry.
pub record Timing : Type 0 where
  pub start_time : Option ℕ
  pub end_time : Option ℕ
  pub state : RecordingState
  pub confidence : ℕ
  pub warnings : List String

abbrev pub is_none : Option ℕ → Bool
is_none none = true
is_none (some x) = false

-- `end_time < start_time`, on two times that are set
abbrev pub precedes : Option ℕ → Option ℕ → Bool
precedes (some end) (some start) = ltb end start
precedes _ _ = false

unfoldable pub timing : DataEntry → Timing
timing entry =
    let zone : String = "DVR timezone is not established; Unix seconds are normalized as UTC" in
    let start_time = timestamp entry.start_time_raw in
    let end_time = timestamp entry.end_time_raw in
    if is_partial entry
    then record {
      start_time = start_time;
      end_time = end_time;
      state = uncertain;
      confidence = 55;
      warnings = zone ∷ "HIKBTREE uses the partial/incomplete timestamp sentinel" ∷ [];
    }
    else if is_none start_time || is_none end_time
    then record {
      start_time = start_time;
      end_time = end_time;
      state = uncertain;
      confidence = 50;
      warnings = zone ∷ "One or both HIKBTREE timestamps are unset" ∷ [];
    }
    else if precedes end_time start_time
    then record {
      start_time = start_time;
      end_time = none;
      state = uncertain;
      confidence = 40;
      warnings = zone ∷ "HIKBTREE end time precedes its start time" ∷ [];
    }
    else record {
      start_time = start_time;
      end_time = end_time;
      state = active;
      confidence = 85;
      warnings = zone ∷ [];
    }

-- The last `width` hexadecimal digits.
abbrev pub hex_digits : ℕ → ℕ → Text
hex_digits zero n = []
hex_digits (suc width) n =
    let d = n / 16 ^ width % 16 in (if ltb d 10 then 48 + d else 87 + d) ∷ hex_digits width n

-- f"hikvision-primary-{offset:016x}", for an offset below 2^64
abbrev pub recording_id_of : ℕ → Text
recording_id_of offset = codes "hikvision-primary-" ++ hex_digits 16 offset

-- One round of the loop of `enumerate_recordings`: what it appends.
unfoldable pub enumerate_entry :
    ReadableEvidence → MasterSector → DataEntry → Result (List RecordingDescriptor)
enumerate_entry source master entry =
    let data_offset = master.filesystem_base_offset + entry.data_offset in
    if not (is_video (state entry))
    then ok []
    else if ltb source.size data_offset || ltb (source.size - data_offset) master.data_block_size
    then ok []
    else do
      extent ← checked_extent (record { offset = data_offset; length = master.data_block_size })
      let t = timing entry
      r ← checked_recording (record {
        recording_id = recording_id_of entry.metadata_offset;
        channel = some entry.channel;
        start_time = t.start_time;
        end_time = t.end_time;
        timestamp_source = some "hikbtree-unix-seconds-timezone-unverified";
        state = t.state;
        extents = extent ∷ [];
        confidence = t.confidence;
        warnings = t.warnings;
      })
      ok (r ∷ [])

unfoldable pub enumerate_entries :
    ReadableEvidence → MasterSector → List DataEntry → Result (List RecordingDescriptor)
enumerate_entries source master [] = ok []
enumerate_entries source master (entry ∷ rest) = do
  here ← enumerate_entry source master entry
  later ← enumerate_entries source master rest
  ok (here ++ later)

-- `parse_primary_tree`, from the master sector on
unfoldable pub parse_tree_of : ReadableEvidence → MasterSector → Result ParseResult
parse_tree_of source master = do
  parser ← make_parser source master.filesystem_base_offset default_max_pages default_max_entries
  parse parser master.primary_tree_offset

-- `enumerate_recordings`
unfoldable pub enumerate_recordings : ℕ → ℕ → ReadableEvidence → Result (List RecordingDescriptor)
enumerate_recordings scan_limit scan_chunk_size source = do
  master ← parse_master_sector scan_limit scan_chunk_size source
  raise_if (master.data_block_size == 0) ErrorKind.hikvision_format_error
      (text "Cannot enumerate recordings with a zero data-block size")
  tree ← parse_tree_of source master
  enumerate_entries source master tree.entries
