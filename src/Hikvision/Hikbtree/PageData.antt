-- ===== src/Hikvision/Hikbtree/PageData.antt =====
-- The pages of adapters/hikvision/hikbtree.py: the choice of a page's layout and its entries.
pub mod Scores
pub mod Entries
use sih.Common.{
  ℕ, zero, suc, ◌+◌, ◌-◌, ◌*◌, max, String, Bool, true, false, not, ◌&&◌, ◌||◌, Option, none, some,
  List, [], ◌∷◌, ◌++◌, length, take, slice, ltb, leb, ◌==◌, if◌then◌else◌, Message, text, format,
  labelled, ErrorKind, Result, ok, raise, raise_if, ◌>>=◌, ◌>>◌,
}
use sih.Common.Bytes.{Bytes, bytes_eq, byte_at, read_u64, read_u32}
use sih.Hikvision.Hikbtree.Entry.{
  hikbtree_signature, hikbtree_header_size, hikbtree_page_size, hikbtree_entry_size,
  hikbtree_entry_marker, hikbtree_video_status, hikbtree_empty_status, empty_pointer, Header,
  DataEntry, ParseResult, is_unknown, post_init, state,
}
use sih.Hikvision.Hikbtree.Reader.{Parser, entry_offsets, refuse_if}

-- The two tests of the inner loop of `_select_page_entry_offset`.
unfoldable pub is_recognized : Bytes → Bool
is_recognized entry =
    bytes_eq (take 8 entry) hikbtree_entry_marker
    && (bytes_eq (slice entry 8 8) hikbtree_video_status
        || bytes_eq (slice entry 8 8) hikbtree_empty_status)

-- The inner loop of `_select_page_entry_offset`.
unfoldable pub count_recognized : ℕ → Bytes → ℕ → ℕ → Result ℕ
count_recognized zero page_data position recognized = raise ErrorKind.out_of_fuel (text "")
count_recognized (suc fuel) page_data position recognized =
    elim (leb (position + hikbtree_entry_size) (length page_data)
      && is_recognized (slice page_data position hikbtree_entry_size)) [
        | true ↦ count_recognized fuel page_data (position + hikbtree_entry_size) (recognized + 1)
        | false ↦ ok recognized
      ]

unfoldable pub score_offsets : Bytes → List ℕ → Result (List (ℕ × ℕ))
score_offsets page_data [] = ok []
score_offsets page_data (entry_offset ∷ rest) = do
  recognized ← count_recognized (suc (length page_data)) page_data entry_offset 0
  later ← score_offsets page_data rest
  ok ((recognized, entry_offset) ∷ later)

unfoldable pub best_score : List (ℕ × ℕ) → ℕ
best_score [] = 0
best_score ((score, entry_offset) ∷ rest) = max score (best_score rest)

unfoldable pub winners : ℕ → List (ℕ × ℕ) → List ℕ
winners best [] = []
winners best ((score, entry_offset) ∷ rest) =
    let later = winners best rest in if score == best then entry_offset ∷ later else later

abbrev pub single : List ℕ → Option ℕ
single (entry_offset ∷ []) = some entry_offset
single _ = none

-- `_select_page_entry_offset`
unfoldable pub select_page_entry_offset : Bytes → Result (Option ℕ)
select_page_entry_offset page_data = do
  scored ← score_offsets page_data entry_offsets
  let best = best_score scored
  ok (if best == 0 then none else single (winners best scored))

-- The entry that one round of `_parse_page_entries` builds from the 48 bytes at `position`.
unfoldable pub read_entry : Bytes → ℕ → ℕ → Result DataEntry
read_entry entry page_absolute position = do
  channel ← byte_at entry 17
  start_time_raw ← read_u32 entry 24
  end_time_raw ← read_u32 entry 28
  data_offset ← read_u64 entry 32
  post_init (record {
    metadata_offset = page_absolute + position;
    page_offset = page_absolute;
    status_raw = slice entry 8 8;
    channel = channel;
    start_time_raw = start_time_raw;
    end_time_raw = end_time_raw;
    data_offset = data_offset;
  })

abbrev pub unknown_warnings : DataEntry → List Message
unknown_warnings e =
    if is_unknown (state e)
    then format "Entry at {} has an unknown status value" (e.metadata_offset ∷ []) ∷ []
    else []

-- `_parse_page_entries` from `position` on
unfoldable pub parse_page_entries :
    ℕ
    → Parser
    → Bytes
    → ℕ
    → ℕ
    → List DataEntry
    → List Message
    → Result (List DataEntry × List Message)
parse_page_entries zero p page_data page_absolute position entries warnings =
    raise ErrorKind.out_of_fuel (text "")
parse_page_entries (suc fuel) p page_data page_absolute position entries warnings =
    elim (leb (position + hikbtree_entry_size) (length page_data)) [
      | false ↦ ok (entries, warnings)
      | true ↦ (do
        refuse_if (leb p.max_entries (length entries))
            (format "HIKBTREE entry count exceeds the configured limit of {}" (p.max_entries ∷ []))
        let entry_data = slice page_data position hikbtree_entry_size
        elim (bytes_eq (take 8 entry_data) hikbtree_entry_marker) [
          | false ↦ ok (entries, warnings)
          | true ↦ (do
            entry ← read_entry entry_data page_absolute position
            parse_page_entries fuel p page_data page_absolute (position + hikbtree_entry_size)
                (entries ++ entry ∷ []) (warnings ++ unknown_warnings entry))
        ])
    ]
