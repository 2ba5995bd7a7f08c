-- ===== src/Hikvision/Hikbtree/Tests.antt =====
-- The HIKBTREE parser on the sample disk, and its theorems at that disk.
use sih.Common.{
  ℕ, ◌≡◌, ◌⊎◌, refl, [], ◌∷◌, none, some, slice, ok, err, raise, ErrorKind, text, arith,
  if◌then◌else◌, ltb,
}
use sih.Common.Bytes.{Bytes, byte_at, unpack_from}
use sih.Common.Ensures.{Ensures}
use sih.Evidence.{read_at, validate_range, readable}
use sih.Hikvision.Sample.{disk, disk_evidence, disk-IsImage}
use sih.Hikvision.Hikbtree.Entry.{DataEntry, post_init, state}
use sih.Hikvision.Hikbtree.Reader.{
  Parser, contains, absolute_offset, has_signature, find_signature, read_header, parse_header,
  default_max_pages, default_max_entries,
}
use sih.Hikvision.Hikbtree.Reader.Headers.{Reads, IsFormatError, IsHeader, parse_header-Ensures}
use sih.Hikvision.Hikbtree.PageList.{
  page_list_candidate, page_list_candidates, exact_offsets, choose_offset,
  select_page_list_entry_offset, page_list_entry, read_page_offsets,
}
use sih.Hikvision.Hikbtree.PageList.Selection.{IsSelected, select_page_list_entry_offset_lem}
use sih.Hikvision.Hikbtree.PageList.Pointers.{IsPageList, read_page_offsets_lem}
use sih.Hikvision.Hikbtree.PageData.{
  is_recognized, count_recognized, score_offsets, best_score, winners, select_page_entry_offset,
  read_entry, parse_page_entries,
}
use sih.Hikvision.Hikbtree.PageData.Scores.{IsRun, select_page_entry_offset_lem}
use sih.Hikvision.Hikbtree.Safety.{IsParsed, parse-Ensures}
use sih.Hikvision.Hikbtree.{parse_page, parse_pages, parse_declared, parse}

abbrev parser : Parser
parser = record {
  source = disk_evidence;
  filesystem_base_offset = 0;
  max_pages = default_max_pages;
  max_entries = default_max_entries;
}

abbrev entry : DataEntry
entry = record {
  metadata_offset = 592;
  page_offset = 512;
  status_raw = 0 ∷ 0 ∷ 0 ∷ 0 ∷ 0 ∷ 0 ∷ 0 ∷ 0 ∷ [];
  channel = 3;
  start_time_raw = 1700000000;
  end_time_raw = 1700000060;
  data_offset = 4608;
}

parser-Reads : Reads parser disk
parser-Reads = record { limit = 8192; image = disk-IsImage; page_fits = omega arith }

parse_disk_entries :
    (elim (parse parser 256) [ ok result ↦ result.entries | err e ↦ [] ]) ≡ entry ∷ []
unfolding parse parse_declared parse_pages parse_page parse_header read_header find_signature
    has_signature absolute_offset contains readable read_at validate_range unpack_from byte_at
    post_init state select_page_list_entry_offset page_list_candidates page_list_candidate
    exact_offsets choose_offset read_page_offsets page_list_entry select_page_entry_offset
    score_offsets count_recognized is_recognized best_score winners parse_page_entries read_entry
parse_disk_entries = refl

parse-Ensures_example : Ensures IsFormatError (IsParsed parser-Reads 256) (parse parser 256)
parse-Ensures_example = parse-Ensures parser-Reads 256

parse_header-Ensures_example :
    Ensures IsFormatError (IsHeader parser-Reads 256) (parse_header parser 256)
parse_header-Ensures_example = parse_header-Ensures parser-Reads 256

select_page_list_entry_offset_lem_example :
    ((entry_offset : ℕ) × (select_page_list_entry_offset parser 352 512 ≡ ok entry_offset)
      × IsSelected parser-Reads 352 512 entry_offset)
    ⊎ ((select_page_list_entry_offset parser 352 512
          ≡ raise ErrorKind.hikvision_format_error
              (text "HIKBTREE page-list layout is missing or ambiguous; refusing to guess"))
        × ((entry_offset : ℕ) → ¬ IsSelected parser-Reads 352 512 entry_offset))
select_page_list_entry_offset_lem_example = select_page_list_entry_offset_lem parser-Reads 352 512

read_page_offsets_lem_example :
    Ensures IsFormatError
      (λ result. IsPageList parser-Reads 352 80 1 result.0)
      (read_page_offsets 1 parser 352 80 0 [] [])
read_page_offsets_lem_example = read_page_offsets_lem parser-Reads 352 80 1

abbrev page_data : Bytes
page_data = slice disk 512 4096

select_page_entry_offset_lem_example :
    (n80 : ℕ) × (n96 : ℕ) × IsRun page_data 80 n80
    × IsRun page_data 96 n96
    × (select_page_entry_offset page_data
        ≡ ok (if ltb n96 n80 then some 80 else if ltb n80 n96 then some 96 else none))
select_page_entry_offset_lem_example = select_page_entry_offset_lem page_data
