-- ===== src/Catalog/Names.antt =====
-- The names in the vault of evidence/catalog.py: a `uuid4` and the suffix that `_safe_filename` lets
-- through make a name that `pathlib` takes for a single path component.
use sih.Common.{
  ◌<◌, ◌≡◌, refl, inl, inr, Bool, false, ◌||◌, [], ◌∷◌, ◌++◌, length, length-append, ltb, ◌==◌, not,
  or_false, Bool-cases, arith,
}
use sih.Common.Bytes.{bytes_eq}
use sih.Common.Ensures.{Ensures, Ensures-if, returns, raises}
use sih.Common.Text.{Text, codes, strip, is_empty}
use sih.Catalog.{Platform, any_control, any_unsafe, safe_suffix, safe_filename}

abbrev pub has_slash : Text → Bool
has_slash [] = false
has_slash (c ∷ s) = (c == 47) || has_slash s

-- `PurePosixPath.name` of a text without a slash is the text, where it is neither empty nor ".".
pub record IsPathName (P : Platform) : Type 0 where
  pub component : (s : Text) → has_slash s ≡ false → 1 < length s → P.path_name s ≡ s

-- `str(uuid4())` has 36 characters and no slash.
pub record IsUuid (s : Text) : Type 0 where
  pub length_eq : length s ≡ 36
  pub no_slash : has_slash s ≡ false

has_slash-append :
    (s t : Text) → has_slash s ≡ false → has_slash t ≡ false → has_slash (s ++ t) ≡ false
has_slash-append [] t h k = k
has_slash-append (c ∷ s) t h k =
    let (first, rest) = or_false (c == 47) (has_slash s) h in
    rw (first, has_slash-append s t rest k) refl

any_unsafe-has_slash : (s : Text) → any_unsafe s ≡ false → has_slash s ≡ false
unfolding any_unsafe
any_unsafe-has_slash [] h = refl
any_unsafe-has_slash (c ∷ s) h =
    let (safe, rest) = or_false _ (any_unsafe s) h in
    let later = any_unsafe-has_slash s rest in ground (arith, safe, later)

module _ (P : Platform) where
  safe_suffix-has_slash : (suffix : Text) → has_slash (safe_suffix P suffix) ≡ false
  safe_suffix-has_slash suffix = elim (Bool-cases (ltb 12 (length suffix) || any_unsafe suffix)) [
    | inl replaced ↦ rw replaced refl
    | inr safe ↦ elim (Bool-cases (is_empty suffix)) [
      | inl nothing_left ↦ rw (safe, nothing_left) refl
      | inr kept ↦ rw (safe, kept) (any_unsafe-has_slash suffix (or_false _ _ safe).1)
    ]
  ]

  pub safe_filename-has_slash :
      (value : Text)
      → Ensures (λ _. Unit) (λ names. has_slash names.1 ≡ false) (safe_filename P value)
  unfolding safe_filename
  safe_filename-has_slash value =
      let decoded = strip (P.unquote value) in
      Ensures-if (is_empty decoded || (ltb 255 (length decoded) || any_control decoded)) _ _
        (λ invalid. raises _ _ tt)
        λ valid.
          Ensures-if
            (not (bytes_eq (P.path_name decoded) decoded)
              || (bytes_eq decoded (codes ".") || bytes_eq decoded (codes "..")))
            _ _ (λ path. raises _ _ tt)
            λ plain. returns _ (safe_suffix-has_slash (P.lower_text (P.path_suffix decoded)))

  -- The name of the new file is a path component.
  pub stored_name-plain :
      IsPathName P
      → (source_id suffix : Text) → IsUuid source_id
      → has_slash suffix ≡ false
      → P.path_name (source_id ++ suffix) ≡ source_id ++ suffix
  stored_name-plain paths source_id suffix uuid no_slash =
      paths.component (source_id ++ suffix)
        (has_slash-append source_id suffix uuid.no_slash no_slash)
        (omega (arith, uuid.length_eq, length-append source_id suffix))
