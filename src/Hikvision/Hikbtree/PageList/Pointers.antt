-- ===== src/Hikvision/Hikbtree/PageList/Pointers.antt =====
-- The page pointers that the parser follows: whole pages of the image, each once.
use sih.Common.{
  ℕ, zero, suc, ◌+◌, ◌*◌, ◌≤◌, ◌<◌, ◌≡◌, refl, false, not, ◌||◌, inl, inr, List, [], ◌∷◌, ◌++◌,
  arith, Bool-cases, length, length-append, All, All-append, Message,
}
use sih.Common.Bytes.{Bytes}
use sih.Common.Ensures.{Ensures, Ensures-bind, returns, Ensures-if}
use sih.Hikvision.Hikbtree.Reader.{Parser, contains}
use sih.Hikvision.Hikbtree.Reader.Headers.{Reads, read_contained, IsFormatError}
use sih.Hikvision.Hikbtree.PageList.{
  is_empty_pointer, PageListEntry, truncated, skipped, page, is_member, page_list_entry,
  read_page_offsets,
}
use sih.Hikvision.Hikbtree.PageList.Selection.{IsPage, pointer_at, read_pointer, IsPage-of_tests}

-- No page is listed twice.
abbrev pub IsDistinct : List ℕ → Type 0
IsDistinct [] = Unit
IsDistinct (x ∷ xs) = (is_member x xs ≡ false) × IsDistinct xs

is_member-append :
    (x : ℕ) (xs ys : List ℕ) → is_member x (xs ++ ys) ≡ (is_member x xs || is_member x ys)
is_member-append x [] ys = refl
is_member-append x (z ∷ xs) ys = ground (arith, is_member-append x xs ys)

IsDistinct-append_one :
    (xs : List ℕ) (x : ℕ) → IsDistinct xs → is_member x xs ≡ false → IsDistinct (xs ++ x ∷ [])
IsDistinct-append_one [] x h n = (refl, tt)
IsDistinct-append_one (y ∷ xs) x h n =
    (ground (arith, is_member-append y xs (x ∷ [])), IsDistinct-append_one xs x h.1 (ground arith))

module _ {p : Parser} {content : Bytes} (r : Reads p content)
    (page_list_absolute entry_offset : ℕ) where
  -- The pointer in entry `index` of the page list.
  abbrev pub listed_at : ℕ → ℕ
  listed_at index = pointer_at r (page_list_absolute + entry_offset + index * 48)

  -- A page that one of the first `count` entries of the list points to.
  pub record IsListed (count q : ℕ) : Type 0 where
    pub index : ℕ
    pub below : index < count
    pub pointer : q ≡ listed_at index
    pub whole : IsPage p content q

  abbrev Found : ℕ → List ℕ → PageListEntry → Type 0
  Found index seen (truncated m) = Unit
  Found index seen (skipped m) = Unit
  Found index seen (page q) =
      (q ≡ listed_at index) × IsPage p content q × (is_member q seen ≡ false)

  page_list_entry-Ensures :
      (index : ℕ) (seen : List ℕ)
      → Ensures IsFormatError
          (Found index seen)
          (page_list_entry p page_list_absolute entry_offset index seen)
  unfolding page_list_entry
  page_list_entry-Ensures index seen =
      let absolute = page_list_absolute + entry_offset + index * 48 in
      Ensures-if (not (contains p.source absolute 48)) _ _ (λ out. returns _ tt)
        λ within.
          let (e, inside, _) = read_contained r absolute 48 (omega arith) (ground arith) in
          let q = listed_at index in
          rw (e, read_pointer r absolute inside)
            (elim (Bool-cases (is_empty_pointer q)) [
              | inl blank ↦ rw blank (returns _ tt)
              | inr full ↦
                  elim (Bool-cases (contains p.source (p.filesystem_base_offset + q) 4096)) [
                    | inr cut ↦ rw (full, cut) (returns _ tt)
                    | inl whole ↦ elim (Bool-cases (is_member q seen)) [
                      | inl old ↦ rw (full, whole, old) (returns _ tt)
                      | inr new ↦
                          rw (full, whole, new)
                            (returns _ (refl, IsPage-of_tests r q full whole, new))
                    ]
                  ]
            ])

  -- What the loop has established of the offsets so far.
  pub record IsPageList (declared : ℕ) (pages : List ℕ) : Type 0 where
    pub listed : All (IsListed declared) pages
    pub distinct : IsDistinct pages
    pub bounded : length pages ≤ declared

  read_page_offsets-Ensures :
      (declared remaining index : ℕ) (pages : List ℕ) (warnings : List Message)
      → index + remaining ≡ declared
      → length pages ≤ index
      → All (IsListed declared) pages
      → IsDistinct pages
      → Ensures IsFormatError
          (λ result. IsPageList declared result.0)
          (read_page_offsets remaining p page_list_absolute entry_offset index pages warnings)
  unfolding read_page_offsets
  read_page_offsets-Ensures declared zero index pages warnings e b l d =
      returns _ (record { listed = l; distinct = d; bounded = omega arith })
  read_page_offsets-Ensures declared (suc remaining) index pages warnings e b l d =
      Ensures-bind (page_list_entry p page_list_absolute entry_offset index pages) _
        (page_list_entry-Ensures index pages)
        (elim [
          | truncated m ↦
              λ h. returns _ (record { listed = l; distinct = d; bounded = omega arith })
          | skipped m ↦ λ h.
              read_page_offsets-Ensures declared remaining (index + 1) pages (warnings ++ m ∷ [])
                (omega arith) (omega arith) l d
          | page q ↦ λ h.
              read_page_offsets-Ensures declared remaining (index + 1) (pages ++ q ∷ []) warnings
                (omega arith) (omega (arith, length-append pages (q ∷ [])))
                (All-append (IsListed declared) pages (q ∷ []) l
                  (record { index = index; below = omega arith; pointer = h.0; whole = h.1 }, tt))
                (IsDistinct-append_one pages q d h.2)
        ])

  -- The offsets that `_read_page_offsets` returns are distinct, at most as many as the page list
  -- declares, and each is the pointer of one of its declared entries and leads to a whole page of
  -- the image. The only error is HikvisionFormatError.
  pub read_page_offsets_lem :
      (declared : ℕ)
      → Ensures IsFormatError
          (λ result. IsPageList declared result.0)
          (read_page_offsets declared p page_list_absolute entry_offset 0 [] [])
  read_page_offsets_lem declared =
      read_page_offsets-Ensures declared declared 0 [] [] (omega arith) (omega arith) tt tt
