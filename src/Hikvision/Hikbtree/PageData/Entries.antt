-- ===== src/Hikvision/Hikbtree/PageData/Entries.antt =====
-- The entries of a page: each is read from its own 48 bytes of the image, within the limit.
use sih.Common.{
  ℕ, zero, suc, ◌+◌, ◌≤◌, ◌<◌, ◌≡◌, refl, ap, sym, ◌∙◌, inl, inr, some, List, [], ◌∷◌, ◌++◌, arith,
  tests, Bool-cases, length, length-append, slice, take, slice-slice, take-slice, length-slice_in,
  get_elem?, get_elem?-slice, get_elem?-All, All, All-append, ok, leb, Message,
}
use sih.Common.Bytes.{Bytes, IsByte, bytes_eq, bytes_eq→eq, byte_at_in, unpack_from_in}
use sih.Common.Ensures.{Ensures, Ensures-bind, Ensures-eq, Ensures-raise_if, returns}
use sih.Hikvision.Hikbtree.Entry.{hikbtree_entry_marker, DataEntry, post_init}
use sih.Hikvision.Hikbtree.Reader.{Parser}
use sih.Hikvision.Hikbtree.Reader.Headers.{IsFormatError, u32_at, u64_at}
use sih.Hikvision.Hikbtree.PageData.{read_entry, parse_page_entries, unknown_warnings}

-- Every field of the entry is what the image holds at its place behind `metadata_offset`, and
-- the entry's 48 bytes lie in the 4096 bytes of its page, which lie in the image.
pub record IsFromImage (content : Bytes) (e : DataEntry) : Type 0 where
  pub page_inside : e.page_offset + 4096 ≤ length content
  pub after_page_start : e.page_offset + 80 ≤ e.metadata_offset
  pub before_page_end : e.metadata_offset + 48 ≤ e.page_offset + 4096
  pub marked : slice content e.metadata_offset 8 ≡ hikbtree_entry_marker
  pub status : e.status_raw ≡ slice content (e.metadata_offset + 8) 8
  pub channel : get_elem? content (e.metadata_offset + 17) ≡ some e.channel
  pub start_time : e.start_time_raw ≡ u32_at content (e.metadata_offset + 24)
  pub end_time : e.end_time_raw ≡ u32_at content (e.metadata_offset + 28)
  pub data_offset : e.data_offset ≡ u64_at content (e.metadata_offset + 32)

post_init_ok : (e : DataEntry) → length e.status_raw ≡ 8 → e.channel < 256 → post_init e ≡ ok e
unfolding post_init
post_init_ok e h c = ground arith

module _ (content : Bytes) (bytes : All IsByte content) (page_absolute : ℕ)
    (page_inside : page_absolute + 4096 ≤ length content) where
  abbrev page_data : Bytes
  page_data = slice content page_absolute 4096

  abbrev entry_data : ℕ → Bytes
  entry_data position = slice page_data position 48

  entry_data_eq :
      (position : ℕ)
      → position + 48 ≤ 4096
      → entry_data position ≡ slice content (page_absolute + position) 48
  entry_data_eq position fits = slice-slice content page_absolute 4096 position 48 fits

  abbrev entry_of : ℕ → ℕ → DataEntry
  entry_of position c =
      let mo = page_absolute + position in
      record {
        metadata_offset = mo;
        page_offset = page_absolute;
        status_raw = slice content (mo + 8) 8;
        channel = c;
        start_time_raw = u32_at content (mo + 24);
        end_time_raw = u32_at content (mo + 28);
        data_offset = u64_at content (mo + 32);
      }

  read_entry-Ensures :
      (position : ℕ)
      → 80 ≤ position
      → position + 48 ≤ 4096
      → take 8 (entry_data position) ≡ hikbtree_entry_marker
      → Ensures IsFormatError
          (λ e. IsFromImage content e × (e.page_offset ≡ page_absolute))
          (read_entry (entry_data position) page_absolute position)
  unfolding read_entry
  read_entry-Ensures position late fits marked =
      let mo = page_absolute + position in
      let whole = slice content mo 48 in
      let n = length-slice_in content mo 48 (omega arith) in
      let (c, read, at) = byte_at_in whole 17 (omega (arith, n)) in
      let at' = sym (get_elem?-slice content mo 48 17 (omega arith)) ∙ at in
      let e = entry_of position c in
      rw
        (
          entry_data_eq position fits,
          read,
          unpack_from_in 4 whole 24 (omega (arith, n)),
          unpack_from_in 4 whole 28 (omega (arith, n)),
          unpack_from_in 8 whole 32 (omega (arith, n)),
          slice-slice content mo 48 24 4 (omega arith),
          slice-slice content mo 48 28 4 (omega arith),
          slice-slice content mo 48 32 8 (omega arith),
          slice-slice content mo 48 8 8 (omega arith),
        )
        (Ensures-eq (post_init e) e
          (post_init_ok e (length-slice_in content (mo + 8) 8 (omega arith))
            (get_elem?-All IsByte content (mo + 17) bytes at'))
          (
            record {
              page_inside = page_inside;
              after_page_start = omega arith;
              before_page_end = omega arith;
              marked =
                  sym (take-slice content mo 48 8 (omega arith))
                  ∙ (sym (ap (take 8) (entry_data_eq position fits)) ∙ marked);
              status = refl;
              channel = at';
              start_time = refl;
              end_time = refl;
              data_offset = refl;
            },
            refl,
          ))

  -- The loop keeps a predicate of all entries so far that the page's entries have, and the limit.
  pub parse_page_entries-Ensures :
      (p : Parser) (P : DataEntry → Type 0)
      → ((e : DataEntry) → IsFromImage content e → e.page_offset ≡ page_absolute → P e)
      → (fuel position : ℕ) (entries : List DataEntry) (warnings : List Message) → 0 < fuel
      → 4096 < fuel + position
      → 80 ≤ position
      → All P entries
      → length entries ≤ p.max_entries
      → Ensures IsFormatError
          (λ result. All P result.0 × (length result.0 ≤ p.max_entries))
          (parse_page_entries fuel p page_data page_absolute position entries warnings)
  unfolding parse_page_entries
  parse_page_entries-Ensures p P holds zero position entries warnings started enough late h b =
      elim started [ ]
  parse_page_entries-Ensures p P holds (suc fuel) position entries warnings started enough late h
        b =
      let n : length page_data ≡ 4096 = length-slice_in content page_absolute 4096 page_inside in
      elim (Bool-cases (leb (position + 48) (length page_data))) [
        | inr done ↦ rw (done, parse_page_entries) (returns _ (h, b))
        | inl more ↦
            rw (more, parse_page_entries)
              (Ensures-raise_if (leb p.max_entries (length entries)) _ _ _ refl λ room.
                elim (Bool-cases (bytes_eq (take 8 (entry_data position)) hikbtree_entry_marker)) [
                  | inr blank ↦ rw blank (returns _ (h, b))
                  | inl marked ↦ rw marked (
                      Ensures-bind (read_entry (entry_data position) page_absolute position) _
                        (read_entry-Ensures position late (omega (tests, n))
                          (bytes_eq→eq _ _ marked))
                        λ e (at, here).
                          parse_page_entries-Ensures p P holds fuel (position + 48)
                            (entries ++ e ∷ []) (warnings ++ unknown_warnings e) (omega (tests, n))
                            (omega (tests, n)) (omega arith)
                            (All-append P entries (e ∷ []) h (holds e at here, tt))
                            (omega (tests, length-append entries (e ∷ []))))
                ])
      ]
