-- ===== src/Catalog/Vault.antt =====
-- A new row and its file in the catalog: that they are read back, and that a removed file leaves no
-- trace.
use sih.Common.{
  is_some, is_some-none, ◌≡◌, ap, refl, inl, inr, true, ◌||◌, none, some, List, [], ◌∷◌, ◌++◌, ◌==◌,
  ok, Bool-cases, or_false, some-none,
}
use sih.Common.Bytes.{Bytes, bytes_eq, bytes_eq_refl}
use sih.Common.Text.{Text}
use sih.Catalog.{
  Platform, Catalog, EvidenceRecord, StoredFile, find_source, has_stored_name, find_file,
  remove_file, unlink, broken_constraint, record_from_row, get_source, compare_file, verify_source,
}

find_file-append :
    (name : Text) (fs : List StoredFile) (content : Bytes)
    → find_file name fs ≡ none
    → find_file name (fs ++ record { name = name; content = content } ∷ [])
      ≡ some (record { name = name; content = content })
unfolding find_file
find_file-append name [] content missing = rw (bytes_eq_refl name) refl
find_file-append name (f ∷ fs) content missing = elim (Bool-cases (bytes_eq f.name name)) [
  | inl here ↦ absurd (some-none (rw here at missing))
  | inr other ↦ rw other (find_file-append name fs content (rw other at missing))
]

remove_file-append :
    (name : Text) (fs : List StoredFile) (content : Bytes)
    → find_file name fs ≡ none
    → remove_file name (fs ++ record { name = name; content = content } ∷ []) ≡ fs
unfolding find_file remove_file
remove_file-append name [] content missing = rw (bytes_eq_refl name) refl
remove_file-append name (f ∷ fs) content missing = elim (Bool-cases (bytes_eq f.name name)) [
  | inl here ↦ absurd (some-none (rw here at missing))
  | inr other ↦
      rw other (ap (λ t. f ∷ t) (remove_file-append name fs content (rw other at missing)))
]

find_source-append :
    (rs : List EvidenceRecord) (r : EvidenceRecord)
    → find_source r.source_id rs ≡ none
    → find_source r.source_id (rs ++ r ∷ []) ≡ some r
unfolding find_source
find_source-append [] r missing = rw (bytes_eq_refl r.source_id) refl
find_source-append (s ∷ rs) r missing = elim (Bool-cases (bytes_eq s.source_id r.source_id)) [
  | inl here ↦ absurd (some-none (rw here at missing))
  | inr other ↦ rw other (find_source-append rs r (rw other at missing))
]

-- A row that breaks no constraint has a new key.
pub broken_constraint-fresh :
    (r : EvidenceRecord) (c : Catalog)
    → broken_constraint r c ≡ none
    → find_source r.source_id c.sources ≡ none
unfolding broken_constraint
broken_constraint-fresh r c h =
    elim (Bool-cases (
      (r.byte_size == 0)
      || (is_some (find_source r.source_id c.sources)
          || has_stored_name r.stored_name c.sources))) [
            | inl broken ↦ absurd (some-none (rw (broken_constraint, broken) at h))
            | inr fine ↦ is_some-none _ (or_false _ _ (or_false _ _ fine).1).0
          ]

abbrev pub with_file : Text → Bytes → Catalog → Catalog
with_file name content c = record c {
  files = c.files ++ record { name = name; content = content } ∷ [];
}

module _ (P : Platform) where
  -- The new record and its file are read back.
  pub get_source-new :
      (row : EvidenceRecord) (content : Bytes) (c : Catalog)
      → find_file row.stored_name c.files ≡ none
      → find_source row.source_id c.sources ≡ none
      → P.path_name row.stored_name ≡ row.stored_name
      → get_source P row.source_id
          (record (with_file row.stored_name content c) { sources = c.sources ++ row ∷ [] })
        ≡ ok row
  unfolding get_source record_from_row
  get_source-new row content c no_file fresh plain =
      rw
        (
          find_source-append c.sources row fresh,
          plain,
          bytes_eq_refl row.stored_name,
          find_file-append row.stored_name c.files content no_file,
        )
        refl

  pub verify_source-new :
      (row : EvidenceRecord) (content : Bytes) (c : Catalog)
      → find_file row.stored_name c.files ≡ none
      → find_source row.source_id c.sources ≡ none
      → P.path_name row.stored_name ≡ row.stored_name
      → P.can_read row.stored_name ≡ true
      → row.sha256 ≡ P.hexdigest content
      → verify_source P row.source_id
          (record (with_file row.stored_name content c) { sources = c.sources ++ row ∷ [] })
        ≡ ok (true, P.hexdigest content)
  unfolding verify_source
  verify_source-new row content c no_file fresh plain readable hashed =
      rw
        (
          get_source-new row content c no_file fresh plain,
          find_file-append row.stored_name c.files content no_file,
          compare_file,
          readable,
          hashed,
          bytes_eq_refl (P.hexdigest content),
        )
        refl

  pub unlinked :
      (name : Text) (content : Bytes) (c : Catalog)
      → find_file name c.files ≡ none
      → unlink name (with_file name content c) ≡ c
  unfolding unlink
  unlinked name content c missing =
      ap (λ fs. record c { files = fs }) (remove_file-append name c.files content missing)
