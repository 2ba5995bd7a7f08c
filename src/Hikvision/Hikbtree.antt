-- ===== src/Hikvision/Hikbtree.antt =====
-- `HikvisionHikbtreeParser.parse` of adapters/hikvision/hikbtree.py, over its parts. Lists that the
-- source appends to are passed on; a loop over the positions of a page takes fuel, and an
-- exhausted fuel is an error that no input reaches.
pub mod Entry
pub mod Reader
pub mod PageList
pub mod PageData
pub mod Safety
mod Tests
use sih.Common.{
  ℕ, zero, suc, ◌+◌, ◌-◌, ◌*◌, max, String, Bool, true, false, not, ◌&&◌, ◌||◌, Option, none, some,
  List, [], ◌∷◌, ◌++◌, length, take, slice, ltb, leb, ◌==◌, if◌then◌else◌, Message, text, format,
  labelled, ErrorKind, Result, ok, raise, raise_if, ◌>>=◌, ◌>>◌,
}
use sih.Common.Bytes.{Bytes, bytes_eq, byte_at, read_u64, read_u32}
use sih.Hikvision.Hikbtree.Entry.{
  hikbtree_signature, hikbtree_header_size, hikbtree_page_size, hikbtree_entry_size,
  hikbtree_entry_marker, hikbtree_video_status, hikbtree_empty_status, empty_pointer, Header,
  DataEntry, ParseResult, is_unknown, post_init, state,
}
use sih.Hikvision.Hikbtree.Reader.{Parser, refuse_if, absolute_offset, parse_header}
use sih.Hikvision.Hikbtree.PageList.{select_page_list_entry_offset, read_page_offsets}
use sih.Hikvision.Hikbtree.PageData.{select_page_entry_offset, parse_page_entries}

-- One page of the loop of `parse`.
unfoldable pub parse_page :
    Parser → ℕ → List DataEntry → List Message → Result (List DataEntry × List Message)
parse_page p page_offset entries warnings = do
  page_absolute ← absolute_offset p page_offset hikbtree_page_size "HIKBTREE page"
  page_data ← p.source.read_at page_absolute hikbtree_page_size
  entry_offset ← select_page_entry_offset page_data
  elim entry_offset [
    | none ↦ ok (
      entries,
      warnings
          ++ format "Page at {} has no unambiguous 48-byte entry layout" (page_absolute ∷ []) ∷ [],
    )
    | some first ↦
        parse_page_entries (suc (length page_data)) p page_data page_absolute first entries warnings
  ]

unfoldable pub parse_pages :
    Parser → List ℕ → List DataEntry → List Message → Result (List DataEntry × List Message)
parse_pages p [] entries warnings = ok (entries, warnings)
parse_pages p (page_offset ∷ rest) entries warnings = do
  (entries', warnings') ← parse_page p page_offset entries warnings
  parse_pages p rest entries' warnings'

-- `parse` of a tree whose page list declares at least one page
unfoldable pub parse_declared : Parser → Header → ℕ → ℕ → Result ParseResult
parse_declared p header page_list_absolute declared_pages = do
  page_list_entry_offset ←
      select_page_list_entry_offset p page_list_absolute header.first_page_offset
  (page_offsets, warnings) ←
      read_page_offsets declared_pages p page_list_absolute page_list_entry_offset 0 [] []
  (entries, all_warnings) ← parse_pages p page_offsets [] warnings
  ok (record {
    header = header;
    page_list_entry_offset = page_list_entry_offset;
    page_offsets = page_offsets;
    entries = entries;
    warnings = all_warnings;
  })

-- The result of `parse` for an empty page list.
abbrev no_pages : Header → ParseResult
no_pages header = record {
  header = header;
  page_list_entry_offset = 80;
  page_offsets = [];
  entries = [];
  warnings = text "HIKBTREE page list declares zero pages" ∷ [];
}

-- `parse`
unfoldable pub parse : Parser → ℕ → Result ParseResult
parse p tree_offset = do
  header ← parse_header p tree_offset
  page_list_absolute ← absolute_offset p header.page_list_offset 4 "HIKBTREE page list"
  count ← p.source.read_at page_list_absolute 4
  declared_pages ← read_u32 count 0
  refuse_if (ltb p.max_pages declared_pages) (
      format "HIKBTREE declares {} pages, exceeding the configured limit of {}"
        (declared_pages ∷ p.max_pages ∷ []))
  if declared_pages == 0
      then ok (no_pages header)
      else parse_declared p header page_list_absolute declared_pages
