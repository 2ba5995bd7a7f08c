-- ===== src/Catalog/Storing.antt =====
-- What `ingest` leaves in the catalog, and `verify` behind it.
use sih.Common.{
  is_some, is_some-none, ◌⊎◌, Error, some, false, ◌>>◌, ◌∙◌, ℕ, ◌≤◌, ◌<◌, ◌≡◌, ap, sym, subst, refl,
  inl, inr, true, not, ◌||◌, none, [], ◌∷◌, ◌++◌, length, Result, ok, err, err-ok, Bool-cases,
  Option-cases, Result-cases, or_false,
}
use sih.Common.Ensures.{Ensures, Ensures-bind, Ensures-any, Ensures-value, returns}
use sih.Common.Text.{Text}
use sih.Cases.Queries.{DateTime, naive, aware}
use sih.Catalog.{
  safe_filename, require_identifier, Platform, Catalog, EvidenceRecord, normalized_time,
  find_source, find_file, broken_constraint, verify_source,
}
use sih.Catalog.Ingest.{
  Progress, IngestRequest, receive_all, link_source, new_source, close_file, check_request,
  check_declared, ingest,
}
use sih.Catalog.Writing.{err-lifted, joined, IsComplete, receive_all-IsComplete}
use sih.Catalog.Names.{has_slash, IsPathName, IsUuid, safe_filename-has_slash, stored_name-plain}
use sih.Catalog.Vault.{
  broken_constraint-fresh, with_file, get_source-new, verify_source-new, unlinked,
}

module _ (P : Platform) where
  -- What a successful `ingest` has added.
  pub record IsIngested (max_ingest_bytes : ℕ) (r : IngestRequest) (c after : Catalog)
      (row : EvidenceRecord) : Type 0 where
    pub stored :
        after
        ≡ record (with_file row.stored_name (joined r.chunks) c) { sources = c.sources ++ row ∷ [] }
    pub source_id : row.source_id ≡ r.source_id
    pub case_id : row.case_id ≡ r.case_id
    pub exhibit_id : row.exhibit_id ≡ r.exhibit_id
    pub byte_size : row.byte_size ≡ length (joined r.chunks)
    pub sha256 : row.sha256 ≡ P.hexdigest (joined r.chunks)
    pub positive : 0 < row.byte_size
    pub bounded : row.byte_size ≤ max_ingest_bytes
    pub no_file : find_file row.stored_name c.files ≡ none
    pub plain : P.path_name row.stored_name ≡ row.stored_name
    pub fresh : find_source row.source_id c.sources ≡ none

  -- The file with all bytes of the stream is in the vault without a row: `chmod` failed, the time has
  -- no zone, or the INSERT raised something else than IntegrityError.
  pub record IsLeftover (r : IngestRequest) (c after : Catalog) (e : Error) : Type 0 where
    pub stored_name : Text
    pub stored : after ≡ with_file stored_name (joined r.chunks) c
    pub cause :
        (P.chmod stored_name ≡ err e)
        ⊎ (r.occurred_at ≡ naive)
        ⊎ ((row : EvidenceRecord) × (row.stored_name ≡ stored_name) × (P.insert_error row ≡ some e))

  abbrev pub IngestOutcome : ℕ → IngestRequest → Catalog → Catalog × Result EvidenceRecord → Type 0
  IngestOutcome max_ingest_bytes r c (after, ok row) = IsIngested max_ingest_bytes r c after row
  IngestOutcome max_ingest_bytes r c (after, err e) = (after ≡ c) ⊎ IsLeftover r c after e

  link_source-IngestOutcome :
      (max_ingest_bytes : ℕ) (r : IngestRequest) (c : Catalog) (display stored_name : Text)
      (p : Progress) (time : ℕ)
      → find_file stored_name c.files ≡ none
      → P.path_name stored_name ≡ stored_name
      → IsComplete P max_ingest_bytes r p
      → IngestOutcome max_ingest_bytes r c (
          link_source P
            (P.insert_error (new_source P r display stored_name p time))
            (broken_constraint
              (new_source P r display stored_name p time)
              (with_file stored_name p.written c))
            (new_source P r display stored_name p time)
            (with_file stored_name p.written c))
  link_source-IngestOutcome max_ingest_bytes r c display stored_name p time missing plain complete =
      let row = new_source P r display stored_name p time in
      elim (Option-cases (P.insert_error row)) [
        | inr (e, raised) ↦ rw raised (
            inr (record {
              stored_name = stored_name;
              stored = ap (λ b. with_file stored_name b c) complete.written;
              cause = inr (inr (row, refl, raised));
            }))
        | inl unraised ↦
            elim (Option-cases (broken_constraint row (with_file stored_name p.written c))) [
              | inr (broken, here) ↦
                  rw (unraised, here) (inl (unlinked P stored_name p.written c missing))
              | inl unbroken ↦
                  let fresh = broken_constraint-fresh row _ unbroken in
                  rw (unraised, unbroken, get_source-new P row p.written c missing fresh plain)
                    (record {
                      stored =
                          ap
                            (λ b. record (with_file stored_name b c) {
                              sources = c.sources ++ row ∷ [];
                            })
                            complete.written;
                      source_id = refl;
                      case_id = refl;
                      exhibit_id = refl;
                      byte_size = complete.counted;
                      sha256 = ap P.hexdigest complete.digested;
                      positive = complete.positive;
                      bounded = complete.bounded;
                      no_file = missing;
                      plain = plain;
                      fresh = fresh;
                    })
            ]
      ]

  -- What `os.chmod` and `_normalized_time` raise.
  prepared-error :
      (name : Text) (t : DateTime) (e : Error)
      → (P.chmod name >> normalized_time t) ≡ err e
      → (P.chmod name ≡ err e) ⊎ (t ≡ naive)
  unfolding normalized_time
  prepared-error name naive e h = inr refl
  prepared-error name (aware time) e h = elim (Result-cases (P.chmod name)) [
    | inl (done, changed) ↦ absurd (err-ok (sym (rw changed at h)))
    | inr (other, failed) ↦ inl (failed ∙ err-lifted (rw failed at h))
  ]

  close_file-IngestOutcome :
      (max_ingest_bytes : ℕ) (r : IngestRequest) (c : Catalog) (display stored_name : Text)
      → find_file stored_name c.files ≡ none
      → P.path_name stored_name ≡ stored_name
      → IngestOutcome max_ingest_bytes r c
          (close_file P (receive_all P max_ingest_bytes r) r display stored_name c)
  close_file-IngestOutcome max_ingest_bytes r c display stored_name missing plain =
      elim (Result-cases (receive_all P max_ingest_bytes r)) [
        | inr (e, failed) ↦ rw failed (inl (unlinked P stored_name [] c missing))
        | inl (p, received) ↦
            let complete = receive_all-IsComplete P max_ingest_bytes r p received in
            elim (Result-cases (P.chmod stored_name >> normalized_time r.occurred_at)) [
              | inr (e, unprepared) ↦
                  rw (received, unprepared)
                    (inr (record {
                      stored_name = stored_name;
                      stored = ap (λ b. with_file stored_name b c) complete.written;
                      cause = elim (prepared-error stored_name r.occurred_at e unprepared) [
                        | inl failed ↦ inl failed
                        | inr unzoned ↦ inr (inl unzoned)
                      ];
                    }))
              | inl (time, prepared) ↦
                  rw (received, prepared)
                    (link_source-IngestOutcome max_ingest_bytes r c display stored_name p time
                      missing plain complete)
            ]
      ]

  check_request-has_slash :
      (max_ingest_bytes : ℕ) (r : IngestRequest)
      → Ensures
          (λ _. Unit)
          (λ names. has_slash names.1 ≡ false)
          (check_request P max_ingest_bytes r)
  unfolding check_request
  check_request-has_slash max_ingest_bytes r =
      Ensures-bind (safe_filename P r.original_filename) _
        (safe_filename-has_slash P r.original_filename)
        λ names no_slash.
          Ensures-bind (require_identifier r.case_id "Case identifier") _ (Ensures-any _) λ _ _.
            Ensures-bind (require_identifier r.exhibit_id "Exhibit identifier") _ (Ensures-any _)
              λ _ _.
                Ensures-bind (require_identifier r.created_by "Creator identifier") _
                  (Ensures-any _)
                  λ _ _.
                    Ensures-bind (check_declared r.declared_size max_ingest_bytes) _ (Ensures-any _)
                      λ _ _. returns names no_slash

  -- If `pathlib` takes a text without a slash for a path component, and `uuid4` gave a uuid: `ingest`
  -- adds one file with exactly the bytes of the stream and one row with their number and digest, within
  -- the limit; or it raises and leaves the rows and the vault as they were, or leaves the rows and that
  -- file alone where `chmod` failed, the time has no zone, or the INSERT raised something else than
  -- IntegrityError.
  pub ingest-IngestOutcome :
      (max_ingest_bytes : ℕ) (r : IngestRequest) (c : Catalog)
      → IsPathName P
      → IsUuid r.source_id
      → IngestOutcome max_ingest_bytes r c (ingest P max_ingest_bytes r c)
  unfolding ingest
  ingest-IngestOutcome max_ingest_bytes r c paths uuid =
      elim (Result-cases (check_request P max_ingest_bytes r)) [
        | inr (e, failed) ↦ rw failed (inl refl)
        | inl ((display, suffix), named) ↦
            let no_slash =
              Ensures-value _ (check_request-has_slash max_ingest_bytes r) (display, suffix)
                named in
            elim (Bool-cases (
              is_some (find_file (r.source_id ++ suffix) c.files)
              || not (P.can_create (r.source_id ++ suffix)))) [
                | inl refused ↦ rw (named, refused) (inl refl)
                | inr opened ↦
                    rw (named, opened)
                      (close_file-IngestOutcome max_ingest_bytes r c display (r.source_id ++ suffix)
                        (is_some-none _ (or_false _ _ opened).0)
                        (stored_name-plain P paths r.source_id suffix uuid no_slash))
              ]
      ]

  -- Behind an `ingest` that returned, `verify` accepts the evidence, if its file can be read, and
  -- reports the digest of the bytes of the stream. (`pathlib` takes a text without a slash for a path
  -- component, and `uuid4` gave a uuid.)
  pub ingest-verify_source :
      (max_ingest_bytes : ℕ) (r : IngestRequest) (c after : Catalog) (row : EvidenceRecord)
      → IsPathName P
      → IsUuid r.source_id
      → ingest P max_ingest_bytes r c ≡ (after, ok row)
      → P.can_read row.stored_name ≡ true
      → verify_source P r.source_id after ≡ ok (true, P.hexdigest (joined r.chunks))
  ingest-verify_source max_ingest_bytes r c after row paths uuid returned readable =
      let i =
        subst (IngestOutcome max_ingest_bytes r c) returned
          (ingest-IngestOutcome max_ingest_bytes r c paths uuid) in
      let read =
        verify_source-new P row (joined r.chunks) c i.no_file i.fresh i.plain readable i.sha256 in
      let there =
        subst (λ a. verify_source P row.source_id a ≡ ok (true, P.hexdigest (joined r.chunks)))
          (sym i.stored) read in
      subst (λ id. verify_source P id after ≡ ok (true, P.hexdigest (joined r.chunks))) i.source_id
        there
