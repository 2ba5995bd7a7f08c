-- ===== src/Catalog/Derived.antt =====
-- `EvidenceCatalog.register_derived_file` (evidence/catalog.py).
use sih.Common.{
  is_some, ℕ, suc, ◌+◌, Bool, true, false, not, ◌||◌, Option, none, some, String, List, [], ◌∷◌,
  ◌++◌, length, ltb, ◌==◌, if◌then◌else◌, text, ErrorKind, Error, Result, ok, err, raise_if, ◌>>◌,
  ◌>>=◌,
}
use sih.Common.Bytes.{Bytes, bytes_eq}
use sih.Common.Text.{Text}
use sih.Cases.Queries.{DateTime}
use sih.Catalog.{
  Platform, Catalog, Constraint, EvidenceRecord, EvidenceMediaKind, normalized_time,
  require_identifier, safe_filename, valid_sha256, find_file, unlink, broken_constraint, get_source,
}
use sih.Catalog.Ingest.{Progress, catalog_error, write_all, at_start}

-- An opened source: what `os.fstat` says, and what `os.read` returns, call by call.
pub record SourceFile : Type 0 where
  pub is_regular : Bool
  pub st_size : ℕ
  pub reads : List (Result Bytes)

-- `source` is what `os.open` gave, if it succeeded; `derivation_json` is what `json.dumps` made of the
-- derivation, if it can.
pub record DerivedRequest : Type 0 where
  pub source : Option SourceFile
  pub case_id : Text
  pub exhibit_id : Text
  pub parent_source_id : Text
  pub derived_artifact_id : Text
  pub original_filename : Text
  pub media_kind : EvidenceMediaKind
  pub expected_sha256 : Text
  pub derivation_json : Option Text
  pub created_by : Text
  pub occurred_at : DateTime
  pub source_id : Text

unfoldable pub check_source : Option SourceFile → ℕ → Result SourceFile
check_source none max_ingest_bytes =
    catalog_error "Derived evidence source could not be opened safely"
check_source (some f) max_ingest_bytes =
    if not f.is_regular || (f.st_size == 0)
    then catalog_error "Derived evidence source must be a non-empty file"
    else if ltb max_ingest_bytes f.st_size
    then catalog_error "Derived evidence exceeds the configured ingest limit"
    else ok f

-- `except sqlite3.IntegrityError`
abbrev pub constraint_message : Constraint → String
constraint_message Constraint.artifact_index =
    "Recovered artifact is already registered for examination"
constraint_message Constraint.other_constraint =
    "Derived evidence could not be linked to the case exhibit"

module _ (P : Platform) where
  open P use {hexdigest, can_create, fsync, chmod, insert_error}

  -- The checks that come before the target is created.
  unfoldable pub check_derived : ℕ → DerivedRequest → Catalog → Result ((Text × Text) × SourceFile)
  check_derived max_ingest_bytes r c = do
    names ← safe_filename P r.original_filename
    require_identifier r.case_id "Case identifier"
    require_identifier r.exhibit_id "Exhibit identifier"
    require_identifier r.parent_source_id "Parent source identifier"
    require_identifier r.derived_artifact_id "Derived artifact identifier"
    require_identifier r.created_by "Creator identifier"
    raise_if (not (valid_sha256 r.expected_sha256)) ErrorKind.evidence_catalog_error
        (text "Derived evidence requires a valid expected SHA-256")
    parent ← get_source P r.parent_source_id c
    raise_if
        (not (bytes_eq parent.case_id r.case_id) || not (bytes_eq parent.exhibit_id r.exhibit_id))
        ErrorKind.evidence_catalog_error
        (text "Derived evidence must remain with its parent exhibit")
    source ← check_source r.source max_ingest_bytes
    ok (names, source)

  -- `while chunk := os.read(…)`
  unfoldable pub copy : Progress → List (Result Bytes) → Result Progress
  copy p [] = ok p
  copy p (err e ∷ reads) = err e
  copy p (ok [] ∷ reads) = ok p
  copy p (ok (b ∷ chunk) ∷ reads) = do
    written ← write_all P (suc (length (b ∷ chunk))) p.written (b ∷ chunk)
    copy
        (record {
          byte_size = p.byte_size + length (b ∷ chunk);
          digested = p.digested ++ b ∷ chunk;
          written = written;
        })
        reads

  unfoldable pub copy_all : SourceFile → Result Progress
  copy_all source = do p ← copy (at_start P) source.reads; fsync p.written; ok p

  abbrev pub derived_source : DerivedRequest → Text → Text → Progress → Text → ℕ → EvidenceRecord
  derived_source r display_filename stored_name p derivation_json created = record {
    source_id = r.source_id;
    case_id = r.case_id;
    exhibit_id = r.exhibit_id;
    original_filename = display_filename;
    stored_name = stored_name;
    media_kind = r.media_kind;
    byte_size = p.byte_size;
    sha256 = hexdigest p.digested;
    created_by = r.created_by;
    created_at = created;
    parent_source_id = some r.parent_source_id;
    derived_artifact_id = some r.derived_artifact_id;
    derivation = some derivation_json;
  }

  abbrev pub link_derived :
      Option Error → Option Constraint → EvidenceRecord → Catalog → Catalog × Result EvidenceRecord
  link_derived (some e) broken row c = (c, err e)
  link_derived none (some broken) row c =
      (unlink row.stored_name c, catalog_error (constraint_message broken))
  link_derived none none row c =
      let after = record c { sources = c.sources ++ row ∷ [] } in
      (after, get_source P row.source_id after)

  -- A time without a zone raises, and leaves the file.
  abbrev pub record_derived :
      Result ℕ
      → DerivedRequest
      → Text
      → Text
      → Progress
      → Text
      → Catalog
      → Catalog × Result EvidenceRecord
  record_derived (err e) r display_filename stored_name p derivation_json c = (c, err e)
  record_derived (ok created) r display_filename stored_name p derivation_json c =
      link_derived
        (insert_error (derived_source r display_filename stored_name p derivation_json created))
        (broken_constraint (derived_source r display_filename stored_name p derivation_json created)
          c)
        (derived_source r display_filename stored_name p derivation_json created) c

  abbrev pub serialize :
      Option Text
      → DerivedRequest
      → Text
      → Text
      → Progress
      → Catalog
      → Catalog × Result EvidenceRecord
  serialize none r display_filename stored_name p c =
      (unlink stored_name c, catalog_error "Derived evidence provenance is not serializable")
  serialize (some derivation_json) r display_filename stored_name p c =
      record_derived (normalized_time r.occurred_at) r display_filename stored_name p
        derivation_json c

  -- `os.chmod(target, 0o400)`, whose failure leaves the file
  abbrev pub close_mode :
      Result (Unit {0})
      → DerivedRequest
      → Text
      → Text
      → Progress
      → Catalog
      → Catalog × Result EvidenceRecord
  close_mode (err e) r display_filename stored_name p c = (c, err e)
  close_mode (ok done) r display_filename stored_name p c =
      serialize r.derivation_json r display_filename stored_name p c

  -- `hmac.compare_digest(observed_sha256, expected_sha256)`
  abbrev pub compare_derived :
      Bool → DerivedRequest → Text → Text → Progress → Catalog → Catalog × Result EvidenceRecord
  compare_derived false r display_filename stored_name p c = (
    unlink stored_name c,
    catalog_error "Derived evidence SHA-256 does not match its source record",
  )
  compare_derived true r display_filename stored_name p c =
      close_mode (chmod stored_name) r display_filename stored_name p c

  abbrev pub close_derived :
      Result Progress → DerivedRequest → Text → Text → Catalog → Catalog × Result EvidenceRecord
  close_derived (err e) r display_filename stored_name c = (
    unlink stored_name
        (record c { files = c.files ++ record { name = stored_name; content = [] } ∷ [] }),
    err e,
  )
  close_derived (ok p) r display_filename stored_name c =
      compare_derived (bytes_eq (hexdigest p.digested) r.expected_sha256) r display_filename
        stored_name p
        (record c { files = c.files ++ record { name = stored_name; content = p.written } ∷ [] })

  abbrev pub open_derived :
      Bool → SourceFile → DerivedRequest → Text → Text → Catalog → Catalog × Result EvidenceRecord
  open_derived true source r display_filename stored_name c =
      (c, catalog_error "Derived evidence destination could not be created")
  open_derived false source r display_filename stored_name c =
      close_derived (copy_all source) r display_filename stored_name c

  abbrev pub register_checked :
      Result ((Text × Text) × SourceFile)
      → DerivedRequest
      → Catalog
      → Catalog × Result EvidenceRecord
  register_checked (err e) r c = (c, err e)
  register_checked (ok ((display_filename, suffix), source)) r c =
      open_derived
        (is_some (find_file (r.source_id ++ suffix) c.files)
          || not (can_create (r.source_id ++ suffix)))
        source r display_filename (r.source_id ++ suffix) c

  -- `register_derived_file`
  unfoldable pub register_derived_file :
      ℕ → DerivedRequest → Catalog → Catalog × Result EvidenceRecord
  register_derived_file max_ingest_bytes r c =
      register_checked (check_derived max_ingest_bytes r c) r c
