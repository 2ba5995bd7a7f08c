-- ===== src/Catalog/Provenance.antt =====
-- What `register_derived_file` leaves in the catalog.
use sih.Common.{
  is_some, is_some-none, ◌⊎◌, Error, Option, ℕ, suc, ◌+◌, ◌≡◌, ◌∙◌, ap, sym, subst, refl, inl, inr,
  Bool, true, false, not, ◌||◌, none, some, List, [], ◌∷◌, ◌++◌, length, Result, ok, err,
  Bool-cases, Option-cases, Result-cases, or_false, >>=-eq-ok, ok-same, err-ok,
}
use sih.Common.Bytes.{Bytes, bytes_eq, bytes_eq→eq}
use sih.Common.Text.{Text}
use sih.Common.Ensures.{
  Ensures, Ensures-bind, Ensures-any, Ensures-known, Ensures-raise_if, Ensures-value, returns,
}
use sih.Cases.Queries.{DateTime, naive, aware}
use sih.Catalog.{
  safe_filename, require_identifier, valid_sha256, Platform, Catalog, EvidenceRecord,
  normalized_time, find_source, find_file, broken_constraint, get_source,
}
use sih.Catalog.Ingest.{Progress, at_start, write_all}
use sih.Catalog.Derived.{
  SourceFile, DerivedRequest, check_source, check_derived, copy, copy_all, derived_source,
  link_derived, record_derived, serialize, compare_derived, close_derived, register_derived_file,
}
use sih.Catalog.Writing.{write_all-ok}
use sih.Catalog.Names.{has_slash, IsPathName, IsUuid, safe_filename-has_slash, stored_name-plain}
use sih.Catalog.Vault.{with_file, unlinked, broken_constraint-fresh, get_source-new}

module _ (P : Platform) where
  -- The copy writes what it digests.
  copy-same :
      (p q : Progress) (reads : List (Result Bytes))
      → p.written ≡ p.digested
      → copy P p reads ≡ ok q
      → q.written ≡ q.digested
  unfolding copy
  copy-same p q [] same h = subst (λ x. x.written ≡ x.digested) (ok-same h) same
  copy-same p q (err e ∷ reads) same h = absurd (err-ok h)
  copy-same p q (ok [] ∷ reads) same h = subst (λ x. x.written ≡ x.digested) (ok-same h) same
  copy-same p q (ok (b ∷ chunk) ∷ reads) same h =
      let (file, stored, more) =
        >>=-eq-ok (write_all P (suc (length (b ∷ chunk))) p.written (b ∷ chunk)) _ h in
      copy-same
        (record {
          byte_size = p.byte_size + length (b ∷ chunk);
          digested = p.digested ++ b ∷ chunk;
          written = file;
        })
        q reads
        (write_all-ok P (suc (length (b ∷ chunk))) p.written (b ∷ chunk) file stored
          ∙ ap (λ t. t ++ b ∷ chunk) same)
        more

  copy_all-same : (f : SourceFile) (p : Progress) → copy_all P f ≡ ok p → p.written ≡ p.digested
  unfolding copy_all
  copy_all-same f p h =
      let (q, copied, rest) = >>=-eq-ok (copy P (at_start P) f.reads) _ h in
      let (done, synced, same) = >>=-eq-ok (P.fsync q.written) (λ done. ok q) rest in
      subst (λ x. x.written ≡ x.digested) (ok-same same)
        (copy-same (at_start P) q f.reads refl copied)

  -- What a successful registration has added: the parent is evidence of the same exhibit, and the new
  -- file has the expected digest.
  pub record IsDerived (r : DerivedRequest) (c after : Catalog) (row : EvidenceRecord)
      : Type 0 where
    pub content : Bytes
    pub stored :
        after ≡ record (with_file row.stored_name content c) { sources = c.sources ++ row ∷ [] }
    pub source_id : row.source_id ≡ r.source_id
    pub parent_source_id : row.parent_source_id ≡ some r.parent_source_id
    pub derived_artifact_id : row.derived_artifact_id ≡ some r.derived_artifact_id
    pub expected : row.sha256 ≡ r.expected_sha256
    pub sha256 : row.sha256 ≡ P.hexdigest content
    pub parent : EvidenceRecord
    pub known : get_source P r.parent_source_id c ≡ ok parent
    pub same_case : parent.case_id ≡ row.case_id
    pub same_exhibit : parent.exhibit_id ≡ row.exhibit_id
    pub no_file : find_file row.stored_name c.files ≡ none
    pub plain : P.path_name row.stored_name ≡ row.stored_name
    pub fresh : find_source row.source_id c.sources ≡ none

  -- A file with the expected digest is in the vault without a row: `chmod` failed, the time has no
  -- zone, or the INSERT raised something else than IntegrityError.
  pub record IsLeftover (r : DerivedRequest) (c after : Catalog) (e : Error) : Type 0 where
    pub stored_name : Text
    pub content : Bytes
    pub stored : after ≡ with_file stored_name content c
    pub expected : P.hexdigest content ≡ r.expected_sha256
    pub cause :
        (P.chmod stored_name ≡ err e)
        ⊎ (r.occurred_at ≡ naive)
        ⊎ ((row : EvidenceRecord) × (row.stored_name ≡ stored_name) × (P.insert_error row ≡ some e))

  abbrev pub DerivedOutcome : DerivedRequest → Catalog → Catalog × Result EvidenceRecord → Type 0
  DerivedOutcome r c (after, ok row) = IsDerived r c after row
  DerivedOutcome r c (after, err e) = (after ≡ c) ⊎ IsLeftover r c after e

  -- The parent that `check_derived` read.
  record HasParent (r : DerivedRequest) (c : Catalog) : Type 0 where
    pub parent : EvidenceRecord
    pub known : get_source P r.parent_source_id c ≡ ok parent
    pub same_case : parent.case_id ≡ r.case_id
    pub same_exhibit : parent.exhibit_id ≡ r.exhibit_id

  not-false : (b : Bool) → not b ≡ false → b ≡ true
  not-false true h = refl
  not-false false h = cc

  check_derived-Ensures :
      (max_ingest_bytes : ℕ) (r : DerivedRequest) (c : Catalog)
      → Ensures
          (λ k. Unit)
          (λ out. HasParent r c × (has_slash out.0.1 ≡ false))
          (check_derived P max_ingest_bytes r c)
  unfolding check_derived
  check_derived-Ensures max_ingest_bytes r c =
      Ensures-bind (safe_filename P r.original_filename) _
        (safe_filename-has_slash P r.original_filename)
        λ names no_slash.
          Ensures-bind (require_identifier r.case_id "Case identifier") _ (Ensures-any _) λ _ _.
            Ensures-bind (require_identifier r.exhibit_id "Exhibit identifier") _ (Ensures-any _)
              λ _ _.
                Ensures-bind (require_identifier r.parent_source_id "Parent source identifier") _
                  (Ensures-any _)
                  λ _ _.
                    Ensures-bind
                      (require_identifier r.derived_artifact_id "Derived artifact identifier") _
                      (Ensures-any _)
                      λ _ _.
                        Ensures-bind (require_identifier r.created_by "Creator identifier") _
                          (Ensures-any _)
                          λ _ _.
                            Ensures-raise_if (not (valid_sha256 r.expected_sha256)) _ _ _ tt λ _.
                              Ensures-bind (get_source P r.parent_source_id c) _ (Ensures-known _)
                                λ parent known.
                                  Ensures-raise_if
                                    (not (bytes_eq parent.case_id r.case_id)
                                      || not (bytes_eq parent.exhibit_id r.exhibit_id))
                                    _ _ _ tt
                                    λ within.
                                      let (one, two) =
                                        or_false (not (bytes_eq parent.case_id r.case_id))
                                          (not (bytes_eq parent.exhibit_id r.exhibit_id)) within in
                                      Ensures-bind (check_source r.source max_ingest_bytes) _
                                        (Ensures-any _)
                                        λ source _. returns _ (
                                          record {
                                            parent = parent;
                                            known = known;
                                            same_case = bytes_eq→eq _ _ (not-false _ one);
                                            same_exhibit = bytes_eq→eq _ _ (not-false _ two);
                                          },
                                          no_slash,
                                        )

  link_derived-DerivedOutcome :
      (r : DerivedRequest) (c : Catalog) (display stored_name json : Text) (p : Progress) (time : ℕ)
      → find_file stored_name c.files ≡ none
      → P.path_name stored_name ≡ stored_name
      → HasParent r c
      → p.written ≡ p.digested
      → P.hexdigest p.digested ≡ r.expected_sha256
      → DerivedOutcome r c (
          link_derived P
            (P.insert_error (derived_source P r display stored_name p json time))
            (broken_constraint
              (derived_source P r display stored_name p json time)
              (with_file stored_name p.written c))
            (derived_source P r display stored_name p json time)
            (with_file stored_name p.written c))
  link_derived-DerivedOutcome r c display stored_name json p time missing plain has same expected =
      let row = derived_source P r display stored_name p json time in
      elim (Option-cases (P.insert_error row)) [
        | inr (e, raised) ↦ rw raised (
            inr (record {
              stored_name = stored_name;
              content = p.written;
              stored = refl;
              expected = ap P.hexdigest same ∙ expected;
              cause = inr (inr (row, refl, raised));
            }))
        | inl unraised ↦
            elim (Option-cases (broken_constraint row (with_file stored_name p.written c))) [
              | inr (broken, here) ↦
                  rw (unraised, here) (inl (unlinked P stored_name p.written c missing))
              | inl unbroken ↦
                  let fresh = broken_constraint-fresh row _ unbroken in
                  rw (unraised, unbroken, get_source-new P row p.written c missing fresh plain)
                    (record {
                      content = p.written;
                      stored = refl;
                      source_id = refl;
                      parent_source_id = refl;
                      derived_artifact_id = refl;
                      expected = expected;
                      sha256 = ap P.hexdigest (sym same);
                      parent = has.parent;
                      known = has.known;
                      same_case = has.same_case;
                      same_exhibit = has.same_exhibit;
                      no_file = missing;
                      plain = plain;
                      fresh = fresh;
                    })
            ]
      ]

  -- From the derivation's JSON text on.
  serialize-DerivedOutcome :
      (json : Option Text) (t : DateTime) (r : DerivedRequest) (c : Catalog)
      (display stored_name : Text) (p : Progress)
      → r.occurred_at ≡ t
      → find_file stored_name c.files ≡ none
      → P.path_name stored_name ≡ stored_name
      → HasParent r c
      → p.written ≡ p.digested
      → P.hexdigest p.digested ≡ r.expected_sha256
      → DerivedOutcome r c
          (serialize P json r display stored_name p (with_file stored_name p.written c))
  unfolding normalized_time
  serialize-DerivedOutcome none t r c display stored_name p at missing plain has same expected =
      inl (unlinked P stored_name p.written c missing)
  serialize-DerivedOutcome (some json) naive r c display stored_name p at missing plain has same
        expected =
      subst
        (λ u. DerivedOutcome r c (
          record_derived P (normalized_time u) r display stored_name p json
            (with_file stored_name p.written c)))
        (sym at)
        (inr (record {
          stored_name = stored_name;
          content = p.written;
          stored = refl;
          expected = ap P.hexdigest same ∙ expected;
          cause = inr (inl at);
        }))
  serialize-DerivedOutcome (some json) (aware time) r c display stored_name p at missing plain has
        same expected =
      subst
        (λ u. DerivedOutcome r c (
          record_derived P (normalized_time u) r display stored_name p json
            (with_file stored_name p.written c)))
        (sym at)
        (link_derived-DerivedOutcome r c display stored_name json p time missing plain has same
          expected)

  compare_derived-DerivedOutcome :
      (r : DerivedRequest) (c : Catalog) (display stored_name : Text) (p : Progress)
      → find_file stored_name c.files ≡ none
      → P.path_name stored_name ≡ stored_name
      → HasParent r c
      → p.written ≡ p.digested
      → DerivedOutcome r c (
          compare_derived P
            (bytes_eq (P.hexdigest p.digested) r.expected_sha256)
            r
            display
            stored_name
            p
            (with_file stored_name p.written c))
  compare_derived-DerivedOutcome r c display stored_name p missing plain has same =
      elim (Bool-cases (bytes_eq (P.hexdigest p.digested) r.expected_sha256)) [
        | inr differs ↦ rw differs (inl (unlinked P stored_name p.written c missing))
        | inl matches ↦ elim (Result-cases (P.chmod stored_name)) [
          | inr (e, failed) ↦
              rw (matches, failed)
                (inr (record {
                  stored_name = stored_name;
                  content = p.written;
                  stored = refl;
                  expected = ap P.hexdigest same ∙ bytes_eq→eq _ _ matches;
                  cause = inl failed;
                }))
          | inl (done, changed) ↦
              rw (matches, changed)
                (serialize-DerivedOutcome r.derivation_json r.occurred_at r c display stored_name p
                  refl missing plain has same (bytes_eq→eq _ _ matches))
        ]
      ]

  close_derived-DerivedOutcome :
      (r : DerivedRequest) (c : Catalog) (f : SourceFile) (display stored_name : Text)
      → find_file stored_name c.files ≡ none
      → P.path_name stored_name ≡ stored_name
      → HasParent r c
      → DerivedOutcome r c (close_derived P (copy_all P f) r display stored_name c)
  close_derived-DerivedOutcome r c f display stored_name missing plain has =
      elim (Result-cases (copy_all P f)) [
        | inr (e, failed) ↦ rw failed (inl (unlinked P stored_name [] c missing))
        | inl (p, copied) ↦ rw copied (
            compare_derived-DerivedOutcome r c display stored_name p missing plain has
              (copy_all-same f p copied))
      ]

  -- If `pathlib` takes a text without a slash for a path component, and `uuid4` gave a uuid:
  -- `register_derived_file` adds one row that names the parent, which is evidence of the same case and
  -- exhibit, and the artifact, and one file whose digest is the expected one; or it raises and leaves
  -- the rows and the vault as they were, or leaves the rows and such a file alone where `chmod` failed,
  -- the time has no zone, or the INSERT raised something else than IntegrityError.
  pub register_derived_file-DerivedOutcome :
      (max_ingest_bytes : ℕ) (r : DerivedRequest) (c : Catalog)
      → IsPathName P
      → IsUuid r.source_id
      → DerivedOutcome r c (register_derived_file P max_ingest_bytes r c)
  unfolding register_derived_file
  register_derived_file-DerivedOutcome max_ingest_bytes r c paths uuid =
      elim (Result-cases (check_derived P max_ingest_bytes r c)) [
        | inr (e, failed) ↦ rw failed (inl refl)
        | inl (((display, suffix), f), checked) ↦
            let (has, no_slash) =
              Ensures-value _ (check_derived-Ensures max_ingest_bytes r c) _ checked in
            elim (Bool-cases (
              is_some (find_file (r.source_id ++ suffix) c.files)
              || not (P.can_create (r.source_id ++ suffix)))) [
                | inl refused ↦ rw (checked, refused) (inl refl)
                | inr opened ↦
                    rw (checked, opened)
                      (close_derived-DerivedOutcome r c f display (r.source_id ++ suffix)
                        (is_some-none _ (or_false _ _ opened).0)
                        (stored_name-plain P paths r.source_id suffix uuid no_slash) has)
              ]
      ]
