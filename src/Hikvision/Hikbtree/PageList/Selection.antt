-- ===== src/Hikvision/Hikbtree/PageList/Selection.antt =====
-- The choice of the page list's layout: the parser never guesses.
use sih.Common.{
  ℕ, ◌+◌, ◌≤◌, ◌≡◌, ◌≢◌, refl, ap, subst, true, false, ◌⊎◌, inl, inr, [], ◌∷◌, arith, Bool-cases,
  length, slice, length-slice_in, ◌∙◌, ok, raise, ◌==◌, slice-slice, ErrorKind, text, if◌then◌else◌,
}
use sih.Common.Bytes.{Bytes, from_little, read_u64, unpack_from_in}
use sih.Hikvision.Hikbtree.Entry.{empty_pointer}
use sih.Hikvision.Hikbtree.Reader.{Parser, contains}
use sih.Hikvision.Hikbtree.Reader.Headers.{Reads, read_contained, u64_at, contains→le, le→contains}
use sih.Hikvision.Hikbtree.PageList.{
  is_empty_pointer, page_list_candidate, page_list_candidates, exact_offsets, choose_offset,
  select_page_list_entry_offset,
}

-- A page pointer that the parser follows: neither of the two empty values, to a whole page of the
-- image.
pub record IsPage (p : Parser) (content : Bytes) (page : ℕ) : Type 0 where
  pub not_zero : page ≢ 0
  pub not_empty : page ≢ empty_pointer
  pub whole : p.filesystem_base_offset + page + 4096 ≤ length content

module _ {p : Parser} {content : Bytes} (r : Reads p content) where
  -- The page pointer in the page-list entry at `absolute`.
  abbrev pub pointer_at : ℕ → ℕ
  pointer_at absolute = u64_at content absolute

  -- A layout is a candidate if its first entry is inside the image and points to a page.
  pub record IsCandidate (page_list_absolute entry_offset : ℕ) : Type 0 where
    pub inside : page_list_absolute + entry_offset + 48 ≤ length content
    pub page : IsPage p content (pointer_at (page_list_absolute + entry_offset))

  pub IsPage-of_tests :
      (page : ℕ)
      → is_empty_pointer page ≡ false
      → contains p.source (p.filesystem_base_offset + page) 4096 ≡ true
      → IsPage p content page
  IsPage-of_tests page e c = record {
    not_zero = ground arith;
    not_empty = ground arith;
    whole =
        omega
          (arith, contains→le p.source (p.filesystem_base_offset + page) 4096 c, r.image.size_eq);
  }

  not-IsPage_empty : (page : ℕ) → is_empty_pointer page ≡ true → ¬ IsPage p content page
  not-IsPage_empty page e h = ground (arith, h.not_zero, h.not_empty)

  not-IsPage_outside :
      (page : ℕ)
      → contains p.source (p.filesystem_base_offset + page) 4096 ≡ false
      → ¬ IsPage p content page
  not-IsPage_outside page e h = ground (
    arith,
    le→contains p.source (p.filesystem_base_offset + page) 4096
        (omega (arith, h.whole, r.image.size_eq)),
  )

  -- The first eight bytes of a page-list entry.
  pub read_pointer :
      (absolute : ℕ)
      → absolute + 48 ≤ length content
      → read_u64 (slice content absolute 48) 0 ≡ ok (pointer_at absolute)
  read_pointer absolute inside =
      unpack_from_in 8 (slice content absolute 48) 0
        (omega (arith, length-slice_in content absolute 48 inside))
      ∙ ap (λ bs. ok (from_little bs))
          (slice-slice content absolute 48 0 8 (omega arith)
            ∙ ap (λ k. slice content k 8) (omega arith))

  page_list_candidate_lem :
      (page_list_absolute entry_offset : ℕ)
      → ((page_list_candidate p page_list_absolute entry_offset ≡ ok [])
          × ¬ IsCandidate page_list_absolute entry_offset)
        ⊎ ((page_list_candidate p page_list_absolute entry_offset
              ≡ ok ((entry_offset, pointer_at (page_list_absolute + entry_offset)) ∷ []))
            × IsCandidate page_list_absolute entry_offset)
  unfolding page_list_candidate
  page_list_candidate_lem page_list_absolute entry_offset =
      let absolute = page_list_absolute + entry_offset in
      elim (Bool-cases (contains p.source absolute 48)) [
        | inl within ↦
            let (e, inside, _) = read_contained r absolute 48 (omega arith) within in
            let page = pointer_at absolute in
            let e' = read_pointer absolute inside in
            elim (Bool-cases (is_empty_pointer page)) [
              | inl blank ↦ inl (rw (within, e, e', blank), λ c. not-IsPage_empty page blank c.page)
              | inr full ↦
                  elim (Bool-cases (contains p.source (p.filesystem_base_offset + page) 4096)) [
                    | inl whole ↦ inr (
                      rw (within, e, e', full, whole),
                      record { inside = inside; page = IsPage-of_tests page full whole },
                    )
                    | inr cut ↦
                        inl (rw (within, e, e', full, cut), λ c. not-IsPage_outside page cut c.page)
                  ]
            ]
        | inr out ↦ inl (
          ground arith,
          λ c.
              ground (
                arith,
                le→contains p.source absolute 48 (omega (arith, c.inside, r.image.size_eq)),
              ),
        )
      ]

  abbrev other_layout : ℕ → ℕ
  other_layout entry_offset = if entry_offset == 80 then 96 else 80

  -- A layout is selected if it is a candidate that nothing else competes with: it alone has the
  -- header's first page in its first entry, or the other layout is no candidate.
  pub record IsSelected (page_list_absolute expected entry_offset : ℕ) : Type 0 where
    pub known : (entry_offset ≡ 80) ⊎ (entry_offset ≡ 96)
    pub candidate : IsCandidate page_list_absolute entry_offset
    pub unrivalled :
        ((pointer_at (page_list_absolute + entry_offset) ≡ expected)
          × (IsCandidate page_list_absolute (other_layout entry_offset)
              → pointer_at (page_list_absolute + other_layout entry_offset) ≢ expected))
        ⊎ (¬ IsCandidate page_list_absolute (other_layout entry_offset))

  unselected :
      (page_list_absolute expected k : ℕ)
      → IsSelected page_list_absolute expected k
      → ¬ IsCandidate page_list_absolute 80
      → ¬ IsCandidate page_list_absolute 96
      → ⊥
  unselected a expected k h no80 no96 = elim h.known [
    | inl e ↦ no80 (subst (IsCandidate a) e h.candidate)
    | inr e ↦ no96 (subst (IsCandidate a) e h.candidate)
  ]

  -- Two candidates that the header's first page does not tell apart.
  ambiguous :
      (page_list_absolute expected k : ℕ)
      → IsSelected page_list_absolute expected k
      → IsCandidate page_list_absolute 80
      → IsCandidate page_list_absolute 96
      → ((pointer_at (page_list_absolute + 80) == expected)
          ≡ (pointer_at (page_list_absolute + 96) == expected))
      → ⊥
  ambiguous a expected k h yes80 yes96 same = elim h.known [
    | inl e ↦ elim (subst (λ k. IsSelected a expected k) e h).unrivalled [
      | inl (exact, alone) ↦ ground (arith, alone yes96)
      | inr none_other ↦ none_other yes96
    ]
    | inr e ↦ elim (subst (λ k. IsSelected a expected k) e h).unrivalled [
      | inl (exact, alone) ↦ ground (arith, alone yes80)
      | inr none_other ↦ none_other yes80
    ]
  ]

  -- `_select_page_list_entry_offset` refuses to guess: it returns a layout that nothing competes
  -- with, and raises HikvisionFormatError exactly where neither layout is of that kind.
  pub select_page_list_entry_offset_lem :
      (page_list_absolute expected : ℕ)
      → ((entry_offset : ℕ) × (select_page_list_entry_offset p page_list_absolute expected
            ≡ ok entry_offset)
          × IsSelected page_list_absolute expected entry_offset)
        ⊎ ((select_page_list_entry_offset p page_list_absolute expected
              ≡ raise ErrorKind.hikvision_format_error
                  (text "HIKBTREE page-list layout is missing or ambiguous; refusing to guess"))
            × ((entry_offset : ℕ) → ¬ IsSelected page_list_absolute expected entry_offset))
  unfolding select_page_list_entry_offset page_list_candidates exact_offsets choose_offset
  select_page_list_entry_offset_lem page_list_absolute expected =
      elim (page_list_candidate_lem page_list_absolute 80) [
        | inl (e80, no80) ↦ elim (page_list_candidate_lem page_list_absolute 96) [
          | inl (e96, no96) ↦
              inr (ground arith, λ k h. unselected page_list_absolute expected k h no80 no96)
          | inr (e96, yes96) ↦ inl (
            96,
            ground arith,
            record { known = inr refl; candidate = yes96; unrivalled = inr no80 },
          )
        ]
        | inr (e80, yes80) ↦ elim (page_list_candidate_lem page_list_absolute 96) [
          | inl (e96, no96) ↦ inl (
            80,
            ground arith,
            record { known = inl refl; candidate = yes80; unrivalled = inr no96 },
          )
          | inr (e96, yes96) ↦
              let p80 = pointer_at (page_list_absolute + 80) in
              let p96 = pointer_at (page_list_absolute + 96) in
              elim (Bool-cases (p80 == expected)) [
                | inl same80 ↦ elim (Bool-cases (p96 == expected)) [
                  | inl same96 ↦ inr (
                    ground arith,
                    λ k h. ambiguous page_list_absolute expected k h yes80 yes96 (ground arith),
                  )
                  | inr not96 ↦ inl (
                    80,
                    ground arith,
                    record {
                      known = inl refl;
                      candidate = yes80;
                      unrivalled = inl (ground arith, λ c. ground arith);
                    },
                  )
                ]
                | inr not80 ↦ elim (Bool-cases (p96 == expected)) [
                  | inl same96 ↦ inl (
                    96,
                    ground arith,
                    record {
                      known = inr refl;
                      candidate = yes96;
                      unrivalled = inl (ground arith, λ c. ground arith);
                    },
                  )
                  | inr not96 ↦ inr (
                    ground arith,
                    λ k h. ambiguous page_list_absolute expected k h yes80 yes96 (ground arith),
                  )
                ]
              ]
        ]
      ]
