-- ===== src/Hikvision/Hikbtree/Safety.antt =====
-- The whole parser on an arbitrary image: it ends, reads only inside the image, raises nothing but
-- HikvisionFormatError, and every value that it returns is traced to the image's bytes.
use sih.Common.{
  ℕ, suc, ◌+◌, ◌≤◌, ◌≡◌, refl, ◌∙◌, true, inl, inr, Option, none, some, List, [], ◌∷◌, arith, tests,
  Bool-cases, length, slice, All, All-map, ok, ltb, ◌==◌, if◌then◌else◌, Message,
}
use sih.Common.Bytes.{Bytes, from_little, unpack_from_in}
use sih.Common.Ensures.{Ensures, Ensures-bind, Ensures-raise_if, Ensures-if, returns, raises}
use sih.Hikvision.Hikbtree.Entry.{Header, DataEntry, ParseResult}
use sih.Hikvision.Hikbtree.Reader.{Parser, absolute_offset, parse_header}
use sih.Hikvision.Hikbtree.Reader.Headers.{
  Reads, read_contained, absolute_offset-Ensures, IsFormatError, IsHeader, parse_header-Ensures,
}
use sih.Hikvision.Hikbtree.PageList.{is_member, select_page_list_entry_offset, read_page_offsets}
use sih.Hikvision.Hikbtree.PageList.Selection.{
  IsPage, IsSelected, select_page_list_entry_offset_lem,
}
use sih.Hikvision.Hikbtree.PageList.Pointers.{IsDistinct, read_page_offsets_lem}
use sih.Hikvision.Hikbtree.PageData.{select_page_entry_offset}
use sih.Hikvision.Hikbtree.PageData.Scores.{select_page_entry_offset_lem}
use sih.Hikvision.Hikbtree.PageData.Entries.{IsFromImage, parse_page_entries-Ensures}
use sih.Hikvision.Hikbtree.{parse_page, parse_pages, parse_declared, parse}

abbrev IsLate : Option ℕ → Type 0
IsLate none = Unit
IsLate (some o) = 80 ≤ o

select_page_entry_offset-Ensures :
    (page_data : Bytes) → Ensures IsFormatError IsLate (select_page_entry_offset page_data)
select_page_entry_offset-Ensures page_data =
    let (n80, n96, _, _, e) = select_page_entry_offset_lem page_data in rw e (late n80 n96)
  where
    late :
        (a b : ℕ)
        → Ensures IsFormatError IsLate
            (ok (if ltb b a then some 80 else if ltb a b then some 96 else none))
    late a b = elim (Bool-cases (ltb b a)) [
      | inl h ↦ rw h (returns _ (omega arith))
      | inr h ↦ elim (Bool-cases (ltb a b)) [
        | inl k ↦ rw (h, k) (returns _ (omega arith))
        | inr k ↦ rw (h, k) (returns _ tt)
      ]
    ]

All-members_of :
    (xs ys : List ℕ)
    → ((q : ℕ) → is_member q xs ≡ true → is_member q ys ≡ true)
    → All (λ q. is_member q ys ≡ true) xs
All-members_of [] ys h = tt
All-members_of (x ∷ xs) ys h =
    (h x (ground arith), All-members_of xs ys (λ q m. h q (ground arith)))

All-members : (xs : List ℕ) → All (λ q. is_member q xs ≡ true) xs
All-members xs = All-members_of xs xs (λ q m. m)

module _ {p : Parser} {content : Bytes} (r : Reads p content) where
  -- The entry stands on one of the listed pages, and is read from its bytes of the image.
  pub record IsTraced (pages : List ℕ) (e : DataEntry) : Type 0 where
    pub from_image : IsFromImage content e
    pub page : ℕ
    pub is_listed : is_member page pages ≡ true
    pub on_page : e.page_offset ≡ p.filesystem_base_offset + page

  abbrev Gathered : List ℕ → List DataEntry × List Message → Type 0
  Gathered pages result = All (IsTraced pages) result.0 × (length result.0 ≤ p.max_entries)

  parse_page-Ensures :
      (pages : List ℕ) (q : ℕ) (entries : List DataEntry) (warnings : List Message)
      → is_member q pages ≡ true
      → All (IsTraced pages) entries
      → length entries ≤ p.max_entries
      → Ensures IsFormatError (Gathered pages) (parse_page p q entries warnings)
  unfolding parse_page
  parse_page-Ensures pages q entries warnings listed h b =
      Ensures-bind (absolute_offset p q 4096 "HIKBTREE page") _
        (absolute_offset-Ensures r q 4096 "HIKBTREE page")
        λ absolute (at, within).
          let (e, inside, n) = read_contained r absolute 4096 (omega arith) within in
          let page_data = slice content absolute 4096 in
          rw e (
            Ensures-bind (select_page_entry_offset page_data) _
              (select_page_entry_offset-Ensures page_data)
              (elim [
                | none ↦ λ _. returns _ (h, b)
                | some first ↦ λ late.
                    parse_page_entries-Ensures content r.image.bytes absolute inside p
                      (IsTraced pages)
                      (λ entry from on. record {
                        from_image = from;
                        page = q;
                        is_listed = listed;
                        on_page = on ∙ at;
                      })
                      (suc (length page_data)) first entries warnings (omega arith)
                      (omega (arith, n)) late h b
              ]))

  parse_pages-Ensures :
      (pages rest : List ℕ) (entries : List DataEntry) (warnings : List Message)
      → All (λ q. is_member q pages ≡ true) rest
      → All (IsTraced pages) entries
      → length entries ≤ p.max_entries
      → Ensures IsFormatError (Gathered pages) (parse_pages p rest entries warnings)
  unfolding parse_pages
  parse_pages-Ensures pages [] entries warnings listed h b = returns _ (h, b)
  parse_pages-Ensures pages (q ∷ rest) entries warnings listed h b =
      Ensures-bind (parse_page p q entries warnings) _
        (parse_page-Ensures pages q entries warnings listed.0 h b)
        λ found (h', b'). parse_pages-Ensures pages rest found.0 found.1 listed.1 h' b'

  select-Ensures :
      (page_list_absolute expected : ℕ)
      → Ensures IsFormatError
          (IsSelected r page_list_absolute expected)
          (select_page_list_entry_offset p page_list_absolute expected)
  select-Ensures page_list_absolute expected =
      elim (select_page_list_entry_offset_lem r page_list_absolute expected) [
        | inl (o, e, selected) ↦ rw e (returns o selected)
        | inr (e, _) ↦ rw e (raises _ _ refl)
      ]

  -- What a parse result says of the image.
  pub record IsParsed (tree_offset : ℕ) (result : ParseResult) : Type 0 where
    pub header : IsHeader r tree_offset result.header
    pub pages : All (IsPage p content) result.page_offsets
    pub distinct : IsDistinct result.page_offsets
    pub page_count : length result.page_offsets ≤ p.max_pages
    pub entries : All (IsTraced result.page_offsets) result.entries
    pub entry_count : length result.entries ≤ p.max_entries

  parse_declared-Ensures :
      (tree_offset : ℕ) (header : Header) (page_list_absolute declared : ℕ)
      → IsHeader r tree_offset header
      → declared ≤ p.max_pages
      → Ensures IsFormatError
          (IsParsed tree_offset)
          (parse_declared p header page_list_absolute declared)
  unfolding parse_declared
  parse_declared-Ensures tree_offset header page_list_absolute declared known few =
      Ensures-bind (select_page_list_entry_offset p page_list_absolute header.first_page_offset) _
        (select-Ensures page_list_absolute header.first_page_offset)
        λ entry_offset _.
          Ensures-bind (read_page_offsets declared p page_list_absolute entry_offset 0 [] []) _
            (read_page_offsets_lem r page_list_absolute entry_offset declared)
            λ found listed.
              Ensures-bind (parse_pages p found.0 [] found.1) _
                (parse_pages-Ensures found.0 found.0 [] found.1 (All-members found.0) tt
                  (omega arith))
                λ gathered (traced, bounded). returns _ (record {
                  header = known;
                  pages = All-map (λ q at. at.whole) found.0 listed.listed;
                  distinct = listed.distinct;
                  page_count = omega (arith, listed.bounded);
                  entries = traced;
                  entry_count = bounded;
                })

  -- `parse` on any image and any offset ends in one of two ways: it raises HikvisionFormatError
  -- (never a short read, an unpacking error or an exhausted loop), or it returns a header found at
  -- the tree's base or 16 bytes on, distinct whole pages of the image, at most `max_pages` of them,
  -- and at most `max_entries` entries, each on a listed page and with every field equal to the
  -- image's bytes at its place.
  pub parse-Ensures :
      (tree_offset : ℕ) → Ensures IsFormatError (IsParsed tree_offset) (parse p tree_offset)
  unfolding parse
  parse-Ensures tree_offset =
      Ensures-bind (parse_header p tree_offset) _ (parse_header-Ensures r tree_offset)
        λ header known.
          Ensures-bind (absolute_offset p header.page_list_offset 4 "HIKBTREE page list") _
            (absolute_offset-Ensures r header.page_list_offset 4 "HIKBTREE page list")
            λ absolute (at, within).
              let (e, inside, n) = read_contained r absolute 4 (omega arith) within in
              let declared = from_little (slice (slice content absolute 4) 0 4) in
              rw (e, unpack_from_in 4 (slice content absolute 4) 0 (omega (arith, n)))
                (Ensures-raise_if (ltb p.max_pages declared) _ _ _ refl λ few.
                  Ensures-if (declared == 0) _ _
                    (λ _. returns _ (record {
                      header = known;
                      pages = tt;
                      distinct = tt;
                      page_count = omega arith;
                      entries = tt;
                      entry_count = omega arith;
                    }))
                    (λ _.
                      parse_declared-Ensures tree_offset header absolute declared known
                        (omega tests)))
