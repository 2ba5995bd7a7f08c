-- ===== src/Hikvision/Hikbtree/Entry.antt =====
-- The constants and records of adapters/hikvision/hikbtree.py.
use sih.Common.{
  ℕ, ◌-◌, ◌^◌, Bool, true, false, not, ◌&&◌, ◌||◌, List, [], ◌∷◌, length, ltb, ◌==◌, if◌then◌else◌,
  Message, text, ErrorKind, Result, ok, raise_if, ◌>>◌,
}
use sih.Common.Bytes.{Bytes, bytes_eq}
use sih.Common.Text.{codes}

abbrev pub hikbtree_signature : Bytes
hikbtree_signature = codes "HIKBTREE"

abbrev pub hikbtree_header_size : ℕ
hikbtree_header_size = 0x60

abbrev pub hikbtree_page_size : ℕ
hikbtree_page_size = 4096

abbrev pub hikbtree_entry_size : ℕ
hikbtree_entry_size = 48

abbrev pub hikbtree_entry_marker : Bytes
hikbtree_entry_marker = 255 ∷ 255 ∷ 255 ∷ 255 ∷ 255 ∷ 255 ∷ 255 ∷ 255 ∷ []

abbrev pub hikbtree_video_status : Bytes
hikbtree_video_status = 0 ∷ 0 ∷ 0 ∷ 0 ∷ 0 ∷ 0 ∷ 0 ∷ 0 ∷ []

abbrev pub hikbtree_empty_status : Bytes
hikbtree_empty_status = 255 ∷ 255 ∷ 255 ∷ 255 ∷ 255 ∷ 255 ∷ 255 ∷ 255 ∷ []

abbrev pub hikbtree_sentinel_timestamp : ℕ
hikbtree_sentinel_timestamp = 0x7fff_ffff

-- 0xFFFFFFFFFFFFFFFF
abbrev pub empty_pointer : ℕ
empty_pointer = 2 ^ 64 - 1

pub data EntryState : Type 0 where
  video empty unknown : EntryState

pub record Header : Type 0 where
  pub signature_offset : ℕ
  pub version_raw : Bytes
  pub created_time_raw : ℕ
  pub footer_offset : ℕ
  pub page_list_offset : ℕ
  pub first_page_offset : ℕ
  pub header_size : ℕ
  pub declared_block_count : ℕ

pub record DataEntry : Type 0 where
  pub metadata_offset : ℕ
  pub page_offset : ℕ
  pub status_raw : Bytes
  pub channel : ℕ
  pub start_time_raw : ℕ
  pub end_time_raw : ℕ
  pub data_offset : ℕ

pub record ParseResult : Type 0 where
  pub header : Header
  pub page_list_entry_offset : ℕ
  pub page_offsets : List ℕ
  pub entries : List DataEntry
  pub warnings : List Message

-- `HikbtreeDataEntry.__post_init__`; the offsets are sums of unsigned numbers
unfoldable pub post_init : DataEntry → Result DataEntry
post_init e = do
  raise_if (not (length e.status_raw == 8)) ErrorKind.value_error
      (text "HIKBTREE status must preserve exactly eight bytes")
  raise_if (ltb 255 e.channel) ErrorKind.value_error (text "HIKBTREE channel must fit in one byte")
  ok e

-- `HikbtreeDataEntry.state`
unfoldable pub state : DataEntry → EntryState
state e =
    if bytes_eq e.status_raw hikbtree_video_status
    then video
    else if bytes_eq e.status_raw hikbtree_empty_status
    then empty
    else unknown

abbrev pub is_video : EntryState → Bool
is_video video = true
is_video _ = false

abbrev pub is_unknown : EntryState → Bool
is_unknown unknown = true
is_unknown _ = false

-- `HikbtreeDataEntry.is_partial`
unfoldable pub is_partial : DataEntry → Bool
unfolding state
is_partial e =
    is_video (state e)
    && (e.start_time_raw == hikbtree_sentinel_timestamp
        || e.end_time_raw == hikbtree_sentinel_timestamp)
