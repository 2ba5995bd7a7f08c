-- ===== src/Hikvision/Hikbtree/Reader.antt =====
-- `HikvisionHikbtreeParser` of adapters/hikvision/hikbtree.py: its state, the bounds tests and the
-- header of the tree.
pub mod Headers
use sih.Common.{
  ℕ, zero, suc, ◌+◌, ◌-◌, ◌*◌, max, String, Bool, true, false, not, ◌&&◌, ◌||◌, Option, none, some,
  List, [], ◌∷◌, ◌++◌, length, take, slice, ltb, leb, ◌==◌, if◌then◌else◌, Message, text, format,
  labelled, ErrorKind, Result, ok, raise, raise_if, ◌>>=◌, ◌>>◌,
}
use sih.Common.Bytes.{Bytes, bytes_eq, byte_at, read_u64, read_u32}
use sih.Evidence.Readable.{ReadableEvidence}
use sih.Hikvision.Hikbtree.Entry.{
  hikbtree_signature, hikbtree_header_size, hikbtree_page_size, hikbtree_entry_size,
  hikbtree_entry_marker, hikbtree_video_status, hikbtree_empty_status, empty_pointer, Header,
  DataEntry, ParseResult, is_unknown, post_init, state,
}

pub record Parser : Type 0 where
  pub source : ReadableEvidence
  pub filesystem_base_offset : ℕ
  pub max_pages : ℕ
  pub max_entries : ℕ

-- `PAGE_LIST_ENTRY_OFFSETS` and `PAGE_ENTRY_OFFSETS`
abbrev pub entry_offsets : List ℕ
entry_offsets = 80 ∷ 96 ∷ []

abbrev pub default_max_pages : ℕ
default_max_pages = 4096

abbrev pub default_max_entries : ℕ
default_max_entries = 250_000

abbrev pub refuse_if : Bool → Message → Result (Unit {0})
refuse_if c m = raise_if c ErrorKind.hikvision_format_error m

-- `__init__`
unfoldable pub make_parser : ReadableEvidence → ℕ → ℕ → ℕ → Result Parser
make_parser source base max_pages max_entries = do
  refuse_if (ltb source.size base) (text "Filesystem base is outside the evidence image")
  raise_if (max_pages == 0) ErrorKind.value_error
      (text "Maximum HIKBTREE page count must be a positive integer")
  raise_if (max_entries == 0) ErrorKind.value_error
      (text "Maximum HIKBTREE entry count must be a positive integer")
  ok (record {
    source = source;
    filesystem_base_offset = base;
    max_pages = max_pages;
    max_entries = max_entries;
  })

-- `_contains`
unfoldable pub contains : ReadableEvidence → ℕ → ℕ → Bool
contains s offset count = leb offset s.size && leb count (s.size - offset)

-- `_absolute_offset`
unfoldable pub absolute_offset : Parser → ℕ → ℕ → String → Result ℕ
absolute_offset p relative_offset count label = do
  let absolute = p.filesystem_base_offset + relative_offset
  refuse_if (not (contains p.source absolute count))
      (labelled label " is outside the available evidence image")
  ok absolute

-- The test of one candidate in the loop of `_parse_header`.
unfoldable pub has_signature : Parser → ℕ → Result Bool
has_signature p candidate =
    if contains p.source candidate (length hikbtree_signature)
    then (do
      found ← p.source.read_at candidate (length hikbtree_signature)
      ok (bytes_eq found hikbtree_signature))
    else ok false

-- The loop of `_parse_header` over the adjustments.
unfoldable pub find_signature : Parser → ℕ → List ℕ → Result (Option ℕ)
find_signature p tree_base [] = ok none
find_signature p tree_base (adjustment ∷ rest) =
    let later = find_signature p tree_base rest in
    do
      here ← has_signature p (tree_base + adjustment)
      if here then ok (some (tree_base + adjustment)) else later

-- `_parse_header` from the signature on
unfoldable pub read_header : Parser → ℕ → Result Header
read_header p signature_offset = do
  refuse_if (not (contains p.source signature_offset hikbtree_header_size))
      (text "HIKBTREE header is truncated")
  header ← p.source.read_at signature_offset hikbtree_header_size
  created_time_raw ← read_u32 header 0x2c
  footer_offset ← read_u64 header 0x30
  page_list_offset ← read_u64 header 0x40
  first_page_offset ← read_u64 header 0x48
  header_size ← read_u32 header 0x50
  declared_block_count ← read_u64 header 0x58
  ok (record {
    signature_offset = signature_offset;
    version_raw = slice header 0x10 0x10;
    created_time_raw = created_time_raw;
    footer_offset = footer_offset;
    page_list_offset = page_list_offset;
    first_page_offset = first_page_offset;
    header_size = header_size;
    declared_block_count = declared_block_count;
  })

abbrev pub read_found : Parser → ℕ → Option ℕ → Result Header
read_found p tree_base none = raise ErrorKind.hikvision_format_error (
    format "HIKBTREE signature is absent at declared offset {} and its observed +16-byte variant"
      (tree_base ∷ []))
read_found p tree_base (some signature_offset) = read_header p signature_offset

-- `_parse_header`
unfoldable pub parse_header : Parser → ℕ → Result Header
parse_header p tree_offset = do
  tree_base ← absolute_offset p tree_offset 0 "HIKBTREE base"
  found ← find_signature p tree_base (0 ∷ 16 ∷ [])
  read_found p tree_base found
