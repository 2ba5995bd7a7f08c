-- ===== src/Catalog/Ingest.antt =====
-- `EvidenceCatalog.ingest` (evidence/catalog.py). What `uuid4` and the clock return is an argument.
use sih.Common.{
  is_some, ℕ, zero, suc, ◌+◌, Bool, true, false, not, ◌||◌, Option, none, some, String, List, [],
  ◌∷◌, ◌++◌, length, drop, take, ltb, ◌==◌, if◌then◌else◌, text, ErrorKind, Error, Result, ok, err,
  raise, raise_if, ◌>>◌, ◌>>=◌,
}
use sih.Common.Bytes.{Bytes}
use sih.Common.Int.{ℤ, pos, negsuc}
use sih.Common.Text.{Text}
use sih.Cases.Queries.{DateTime}
use sih.Catalog.{
  Platform, Catalog, Constraint, EvidenceRecord, EvidenceMediaKind, normalized_time,
  require_identifier, safe_filename, find_file, unlink, broken_constraint, get_source,
}

-- What the stream yields: bytes, something else, or an exception.
pub data Piece : Type 0 where
  piece : Bytes → Piece
  not_bytes : Piece
  failing : Error → Piece

pub record IngestRequest : Type 0 where
  pub chunks : List Piece
  pub case_id : Text
  pub exhibit_id : Text
  pub original_filename : Text
  pub media_kind : EvidenceMediaKind
  pub created_by : Text
  pub declared_size : Option ℤ
  pub occurred_at : DateTime
  pub source_id : Text

-- What has been received: the counted bytes, the bytes given to the digest and the bytes of the file.
pub record Progress : Type 0 where
  pub byte_size : ℕ
  pub digested : Bytes
  pub written : Bytes

abbrev pub catalog_error {ℓ} : {A : Type ℓ} → String → Result A
catalog_error message = raise ErrorKind.evidence_catalog_error (text message)

abbrev pub check_declared : Option ℤ → (max_ingest_bytes : ℕ) → Result (Unit {0})
check_declared none max_ingest_bytes = ok tt
check_declared (some (negsuc n)) max_ingest_bytes =
    catalog_error "Evidence content length must be positive"
check_declared (some (pos n)) max_ingest_bytes =
    if n == 0
    then catalog_error "Evidence content length must be positive"
    else if ltb max_ingest_bytes n
    then catalog_error "Evidence exceeds the configured ingest limit"
    else ok tt

-- `declared_size is not None and byte_size != declared_size`
abbrev pub is_mismatch : Option ℤ → ℕ → Bool
is_mismatch none byte_size = false
is_mismatch (some (pos n)) byte_size = not (byte_size == n)
is_mismatch (some (negsuc n)) byte_size = true

module _ (P : Platform) where
  open P use {hexdigest, can_create, os_write, fsync, chmod, insert_error}

  -- `_write_all` behind `written`: the file with the data. A step takes one byte of the data at least.
  unfoldable pub write_all : (fuel : ℕ) (written remaining : Bytes) → Result Bytes
  write_all zero written remaining = raise ErrorKind.out_of_fuel (text "")
  write_all (suc fuel) written [] = ok written
  write_all (suc fuel) written (b ∷ remaining) =
      os_write (length written) (b ∷ remaining) >>= λ count.
      let rest =
        write_all fuel (written ++ take count (b ∷ remaining)) (drop count (b ∷ remaining)) in
      if count == 0 then catalog_error "Evidence vault returned a short write" else rest

  -- The loop over the stream.
  unfoldable pub receive : (max_ingest_bytes : ℕ) → Progress → List Piece → Result Progress
  receive max_ingest_bytes p [] = ok p
  receive max_ingest_bytes p (Piece.failing e ∷ pieces) = err e
  receive max_ingest_bytes p (Piece.not_bytes ∷ pieces) =
      catalog_error "Evidence stream returned a non-byte chunk"
  receive max_ingest_bytes p (Piece.piece [] ∷ pieces) = receive max_ingest_bytes p pieces
  receive max_ingest_bytes p (Piece.piece (b ∷ chunk) ∷ pieces) = do
    raise_if (ltb max_ingest_bytes (p.byte_size + length (b ∷ chunk)))
        ErrorKind.evidence_catalog_error (text "Evidence exceeds the configured ingest limit")
    written ← write_all (suc (length (b ∷ chunk))) p.written (b ∷ chunk)
    receive max_ingest_bytes
        (record {
          byte_size = p.byte_size + length (b ∷ chunk);
          digested = p.digested ++ b ∷ chunk;
          written = written;
        })
        pieces

  abbrev pub at_start : Progress
  at_start = record { byte_size = 0; digested = []; written = [] }

  -- The block that a failure closes and unlinks.
  unfoldable pub receive_all : ℕ → IngestRequest → Result Progress
  receive_all max_ingest_bytes r = do
    p ← receive max_ingest_bytes at_start r.chunks
    raise_if (p.byte_size == 0) ErrorKind.evidence_catalog_error (text "Evidence stream is empty")
    raise_if (is_mismatch r.declared_size p.byte_size) ErrorKind.evidence_catalog_error
        (text "Evidence content length did not match received bytes")
    fsync p.written
    ok p

  -- INSERT INTO evidence_sources, and `except sqlite3.IntegrityError`; another exception leaves the
  -- file
  abbrev pub link_source :
      Option Error → Option Constraint → EvidenceRecord → Catalog → Catalog × Result EvidenceRecord
  link_source (some e) broken row c = (c, err e)
  link_source none (some broken) row c =
      (unlink row.stored_name c, catalog_error "Evidence could not be linked to the case exhibit")
  link_source none none row c =
      let after = record c { sources = c.sources ++ row ∷ [] } in
      (after, get_source P row.source_id after)

  abbrev pub new_source : IngestRequest → Text → Text → Progress → ℕ → EvidenceRecord
  new_source r display_filename stored_name p created = record {
    source_id = r.source_id;
    case_id = r.case_id;
    exhibit_id = r.exhibit_id;
    original_filename = display_filename;
    stored_name = stored_name;
    media_kind = r.media_kind;
    byte_size = p.byte_size;
    sha256 = hexdigest p.digested;
    created_by = r.created_by;
    created_at = created;
    parent_source_id = none;
    derived_artifact_id = none;
    derivation = none;
  }

  -- What follows on the block: a failing `chmod` or a time without a zone leaves the file.
  abbrev pub record_source :
      Result ℕ → IngestRequest → Text → Text → Progress → Catalog → Catalog × Result EvidenceRecord
  record_source (err e) r display_filename stored_name p c = (c, err e)
  record_source (ok created) r display_filename stored_name p c =
      link_source (insert_error (new_source r display_filename stored_name p created))
        (broken_constraint (new_source r display_filename stored_name p created) c)
        (new_source r display_filename stored_name p created) c

  -- A failure of the block unlinks the file, whatever it holds by then.
  abbrev pub close_file :
      Result Progress → IngestRequest → Text → Text → Catalog → Catalog × Result EvidenceRecord
  close_file (err e) r display_filename stored_name c = (
    unlink stored_name
        (record c { files = c.files ++ record { name = stored_name; content = [] } ∷ [] }),
    err e,
  )
  close_file (ok p) r display_filename stored_name c =
      record_source (chmod stored_name >> normalized_time r.occurred_at) r display_filename
        stored_name p
        (record c { files = c.files ++ record { name = stored_name; content = p.written } ∷ [] })

  abbrev pub open_file :
      Bool → ℕ → IngestRequest → Text → Text → Catalog → Catalog × Result EvidenceRecord
  open_file true max_ingest_bytes r display_filename stored_name c =
      (c, catalog_error "Evidence vault destination could not be created")
  open_file false max_ingest_bytes r display_filename stored_name c =
      close_file (receive_all max_ingest_bytes r) r display_filename stored_name c

  unfoldable pub check_request : ℕ → IngestRequest → Result (Text × Text)
  check_request max_ingest_bytes r = do
    names ← safe_filename P r.original_filename
    require_identifier r.case_id "Case identifier"
    require_identifier r.exhibit_id "Exhibit identifier"
    require_identifier r.created_by "Creator identifier"
    check_declared r.declared_size max_ingest_bytes
    ok names

  abbrev pub ingest_named :
      Result (Text × Text) → ℕ → IngestRequest → Catalog → Catalog × Result EvidenceRecord
  ingest_named (err e) max_ingest_bytes r c = (c, err e)
  ingest_named (ok (display_filename, suffix)) max_ingest_bytes r c =
      let stored_name = r.source_id ++ suffix in
      open_file (is_some (find_file stored_name c.files) || not (can_create stored_name))
        max_ingest_bytes r display_filename stored_name c

  -- `ingest`
  unfoldable pub ingest : ℕ → IngestRequest → Catalog → Catalog × Result EvidenceRecord
  ingest max_ingest_bytes r c = ingest_named (check_request max_ingest_bytes r) max_ingest_bytes r c
