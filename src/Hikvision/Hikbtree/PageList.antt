-- ===== src/Hikvision/Hikbtree/PageList.antt =====
-- The page list of adapters/hikvision/hikbtree.py: the choice of its layout and its page pointers.
pub mod Selection
pub mod Pointers
use sih.Common.{
  ℕ, zero, suc, ◌+◌, ◌-◌, ◌*◌, max, String, Bool, true, false, not, ◌&&◌, ◌||◌, Option, none, some,
  List, [], ◌∷◌, ◌++◌, length, take, slice, ltb, leb, ◌==◌, if◌then◌else◌, Message, text, format,
  labelled, ErrorKind, Result, ok, raise, raise_if, ◌>>=◌, ◌>>◌,
}
use sih.Common.Bytes.{Bytes, bytes_eq, byte_at, read_u64, read_u32}
use sih.Hikvision.Hikbtree.Entry.{
  hikbtree_signature, hikbtree_header_size, hikbtree_page_size, hikbtree_entry_size,
  hikbtree_entry_marker, hikbtree_video_status, hikbtree_empty_status, empty_pointer, Header,
  DataEntry, ParseResult, is_unknown, post_init, state,
}
use sih.Hikvision.Hikbtree.Reader.{Parser, entry_offsets, contains}

abbrev pub is_empty_pointer : ℕ → Bool
is_empty_pointer page = page == 0 || page == empty_pointer

-- One round of the loop of `_select_page_list_entry_offset`: what it appends to the candidates.
unfoldable pub page_list_candidate : Parser → ℕ → ℕ → Result (List (ℕ × ℕ))
page_list_candidate p page_list_absolute entry_offset =
    let absolute = page_list_absolute + entry_offset in
    if not (contains p.source absolute hikbtree_entry_size) then ok [] else do
      entry ← p.source.read_at absolute hikbtree_entry_size
      relative_page ← read_u64 entry 0
      ok (
          if is_empty_pointer relative_page
          then []
          else if contains p.source (p.filesystem_base_offset + relative_page) hikbtree_page_size
          then (entry_offset, relative_page) ∷ []
          else [])

unfoldable pub page_list_candidates : Parser → ℕ → List ℕ → Result (List (ℕ × ℕ))
page_list_candidates p page_list_absolute [] = ok []
page_list_candidates p page_list_absolute (entry_offset ∷ rest) = do
  here ← page_list_candidate p page_list_absolute entry_offset
  later ← page_list_candidates p page_list_absolute rest
  ok (here ++ later)

-- `[entry_offset for entry_offset, relative_page in candidates if relative_page == expected]`
unfoldable pub exact_offsets : ℕ → List (ℕ × ℕ) → List ℕ
exact_offsets expected [] = []
exact_offsets expected ((entry_offset, relative_page) ∷ rest) =
    let later = exact_offsets expected rest in
    if relative_page == expected then entry_offset ∷ later else later

-- The choice at the end of `_select_page_list_entry_offset`.
unfoldable pub choose_offset : List ℕ → List (ℕ × ℕ) → Result ℕ
choose_offset (entry_offset ∷ []) candidates = ok entry_offset
choose_offset exact ((entry_offset, relative_page) ∷ []) = ok entry_offset
choose_offset exact candidates =
    raise ErrorKind.hikvision_format_error
      (text "HIKBTREE page-list layout is missing or ambiguous; refusing to guess")

-- `_select_page_list_entry_offset`
unfoldable pub select_page_list_entry_offset : Parser → ℕ → ℕ → Result ℕ
select_page_list_entry_offset p page_list_absolute expected_first_page_offset = do
  candidates ← page_list_candidates p page_list_absolute entry_offsets
  choose_offset (exact_offsets expected_first_page_offset candidates) candidates

-- What one round of the loop of `_read_page_offsets` finds.
pub data PageListEntry : Type 0 where
  -- `break`
  truncated : Message → PageListEntry
  -- `continue`
  skipped : Message → PageListEntry
  page : ℕ → PageListEntry

abbrev pub is_member : ℕ → List ℕ → Bool
is_member x [] = false
is_member x (y ∷ ys) = (x == y) || is_member x ys

unfoldable pub page_list_entry : Parser → ℕ → ℕ → ℕ → List ℕ → Result PageListEntry
page_list_entry p page_list_absolute entry_offset index seen =
    let absolute = page_list_absolute + entry_offset + index * hikbtree_entry_size in
    if not (contains p.source absolute hikbtree_entry_size)
    then ok (truncated (format "Page-list entry {} is truncated" ((index + 1) ∷ [])))
    else do
      entry ← p.source.read_at absolute hikbtree_entry_size
      relative_page ← read_u64 entry 0
      ok (
          if is_empty_pointer relative_page
          then skipped (format "Page-list entry {} has an empty page pointer" ((index + 1) ∷ []))
          else if not
              (contains p.source (p.filesystem_base_offset + relative_page) hikbtree_page_size)
          then skipped (format "Page-list entry {} points outside the image" ((index + 1) ∷ []))
          else if is_member relative_page seen
          then skipped
              (format "Page-list entry {} repeats an earlier page pointer" ((index + 1) ∷ []))
          else page relative_page)

-- `_read_page_offsets` with `remaining` rounds to go; `seen` and the offsets grow together, so
-- one list stands for both.
unfoldable pub read_page_offsets :
    ℕ → Parser → ℕ → ℕ → ℕ → List ℕ → List Message → Result (List ℕ × List Message)
read_page_offsets zero p page_list_absolute entry_offset index page_offsets warnings =
    ok (page_offsets, warnings)
read_page_offsets (suc remaining) p page_list_absolute entry_offset index page_offsets warnings = do
  found ← page_list_entry p page_list_absolute entry_offset index page_offsets
  elim found [
    | truncated m ↦ ok (page_offsets, warnings ++ m ∷ [])
    | skipped m ↦
        read_page_offsets remaining p page_list_absolute entry_offset (index + 1) page_offsets
          (warnings ++ m ∷ [])
    | page relative_page ↦
        read_page_offsets remaining p page_list_absolute entry_offset (index + 1)
          (page_offsets ++ relative_page ∷ []) warnings
  ]
