-- ===== src/Catalog.antt =====
-- The evidence catalog (evidence/catalog.py): its table and its vault, and the checks of names. The
-- vault is the list of its files. Removing a file, with the change of mode before that, and reading a
-- row succeed.
mod Tests
pub mod Ingest
pub mod Derived
pub mod Names
pub mod Provenance
pub mod Storing
pub mod Vault
pub mod Listing
pub mod Writing
use sih.Common.{
  is_some, ℕ, ◌≤◌, Bool, true, false, not, ◌&&◌, ◌||◌, Option, none, some, String, List, [], ◌∷◌,
  ◌++◌, length, ltb, leb, ◌==◌, if◌then◌else◌, Message, text, labelled, ErrorKind, Error, Result,
  ok, err, raise, raise_if, ◌>>◌, ◌>>=◌,
}
use sih.Common.Bytes.{Bytes, bytes_eq}
use sih.Common.Text.{Text, codes, strip, is_empty, is_blank}
use sih.Cases.Queries.{DateTime, naive, aware}

pub data EvidenceMediaKind : Type 0 where
  raw_disk_image video_file : EvidenceMediaKind

-- A row of `evidence_sources`, and the record that is read from it: `stored_path` is `stored_name` in
-- the vault, and `derivation` its JSON text.
pub record EvidenceRecord : Type 0 where
  pub source_id : Text
  pub case_id : Text
  pub exhibit_id : Text
  pub original_filename : Text
  pub stored_name : Text
  pub media_kind : EvidenceMediaKind
  pub byte_size : ℕ
  pub sha256 : Text
  pub created_by : Text
  pub created_at : ℕ
  pub parent_source_id : Option Text
  pub derived_artifact_id : Option Text
  pub derivation : Option Text

pub record StoredFile : Type 0 where
  pub name : Text
  pub content : Bytes

-- The rows, the vault, and the keys of the tables `cases` and `exhibits`.
pub record Catalog : Type 0 where
  pub sources : List EvidenceRecord
  pub files : List StoredFile
  pub cases : List Text
  pub exhibits : List Text

-- What the catalog takes from `urllib`, `pathlib`, `hashlib` and the operating system.
pub record Platform : Type 0 where
  pub unquote : Text → Text
  pub lower_text : Text → Text
  -- `Path(text).name`, `Path(text).suffix`
  pub path_name : Text → Text
  pub path_suffix : Text → Text
  -- the digest of all that was given to `update`
  pub hexdigest : Bytes → Text
  -- whether a file that is not there can be created, and whether one can be read
  pub can_create : Text → Bool
  pub can_read : Text → Bool
  -- `os.write` behind that many bytes: how many of the bytes it took
  pub os_write : ℕ → Bytes → Result ℕ
  pub fsync : Bytes → Result (Unit {0})
  -- `os.chmod(target, 0o400)`
  pub chmod : Text → Result (Unit {0})
  -- what the INSERT of a row or its commit raises, if it is not sqlite3.IntegrityError
  pub insert_error : EvidenceRecord → Option Error

-- `_normalized_time`
unfoldable pub normalized_time : DateTime → Result ℕ
normalized_time naive =
    raise ErrorKind.value_error (text "Evidence timestamps must be timezone-aware")
normalized_time (aware t) = ok t

-- `_require_identifier`
unfoldable pub require_identifier : Text → String → Result (Unit {0})
require_identifier value label =
    raise_if (is_blank value || ltb 256 (length value)) ErrorKind.evidence_catalog_error
      (labelled label " is invalid")

-- `any(ord(character) < 32 for character in decoded)`
unfoldable pub any_control : Text → Bool
any_control [] = false
any_control (c ∷ s) = ltb c 32 || any_control s

-- `any(character not in ".abcdefghijklmnopqrstuvwxyz0123456789" …)`
unfoldable pub any_unsafe : Text → Bool
any_unsafe [] = false
any_unsafe (c ∷ s) =
    not ((c == 46) || ((leb 97 c && leb c 122) || (leb 48 c && leb c 57))) || any_unsafe s

unfoldable pub in_range : Text → Bool
in_range [] = true
in_range (c ∷ s) = ((leb 48 c && leb c 57) || (leb 97 c && leb c 102)) && in_range s

-- `_valid_sha256`
unfoldable pub valid_sha256 : Text → Bool
valid_sha256 value = (length value == 64) && in_range value

-- SELECT * FROM evidence_sources WHERE source_id = ?
unfoldable pub find_source : Text → List EvidenceRecord → Option EvidenceRecord
find_source source_id [] = none
find_source source_id (r ∷ rs) =
    let later = find_source source_id rs in if bytes_eq r.source_id source_id then some r else later

unfoldable pub has_stored_name : Text → List EvidenceRecord → Bool
has_stored_name name [] = false
has_stored_name name (r ∷ rs) = bytes_eq r.stored_name name || has_stored_name name rs

abbrev pub names_artifact : Text → Option Text → Bool
names_artifact artifact_id none = false
names_artifact artifact_id (some other) = bytes_eq other artifact_id

unfoldable pub has_artifact : Text → List EvidenceRecord → Bool
has_artifact artifact_id [] = false
has_artifact artifact_id (r ∷ rs) =
    names_artifact artifact_id r.derived_artifact_id || has_artifact artifact_id rs

unfoldable pub has_key : Text → List Text → Bool
has_key key [] = false
has_key key (k ∷ ks) = bytes_eq k key || has_key key ks

unfoldable pub find_file : Text → List StoredFile → Option StoredFile
find_file name [] = none
find_file name (f ∷ fs) =
    let later = find_file name fs in if bytes_eq f.name name then some f else later

unfoldable pub remove_file : Text → List StoredFile → List StoredFile
remove_file name [] = []
remove_file name (f ∷ fs) =
    let later = remove_file name fs in if bytes_eq f.name name then later else f ∷ later

-- `target.unlink(missing_ok=True)`
unfoldable pub unlink : Text → Catalog → Catalog
unlink name c = record c { files = remove_file name c.files }

-- What sqlite3.IntegrityError names.
pub data Constraint : Type 0 where
  other_constraint artifact_index : Constraint

abbrev pub artifact_taken : Option Text → List EvidenceRecord → Bool
artifact_taken none sources = false
artifact_taken (some artifact_id) sources = has_artifact artifact_id sources

abbrev pub parent_missing : Option Text → List EvidenceRecord → Bool
parent_missing none sources = false
parent_missing (some parent_id) sources = not (is_some (find_source parent_id sources))

-- The constraint of the schema that a new row breaks.
unfoldable pub broken_constraint : EvidenceRecord → Catalog → Option Constraint
broken_constraint r c =
    if (r.byte_size == 0)
      || (is_some (find_source r.source_id c.sources) || has_stored_name r.stored_name c.sources)
    then some Constraint.other_constraint
    else if artifact_taken r.derived_artifact_id c.sources
    then some Constraint.artifact_index
    else if not (has_key r.case_id c.cases)
        || (not (has_key r.exhibit_id c.exhibits) || parent_missing r.parent_source_id c.sources)
    then some Constraint.other_constraint
    else none

module _ (P : Platform) where
  open P use {unquote, lower_text, path_name, path_suffix, hexdigest, can_read, os_write}

  abbrev pub safe_suffix : Text → Text
  safe_suffix suffix =
      if ltb 12 (length suffix) || any_unsafe suffix
      then codes ".bin"
      else if is_empty suffix
      then codes ".bin"
      else suffix

  -- `_safe_filename`
  unfoldable pub safe_filename : Text → Result (Text × Text)
  safe_filename value =
      let decoded = strip (unquote value) in
      if is_empty decoded || (ltb 255 (length decoded) || any_control decoded)
      then raise ErrorKind.evidence_catalog_error (text "Evidence filename is invalid")
      else if not (bytes_eq (path_name decoded) decoded)
          || (bytes_eq decoded (codes ".") || bytes_eq decoded (codes ".."))
      then raise ErrorKind.evidence_catalog_error (text "Evidence filename must not contain a path")
      else ok (decoded, safe_suffix (lower_text (path_suffix decoded)))

  -- `_record_from_row`
  unfoldable pub record_from_row : EvidenceRecord → Catalog → Result EvidenceRecord
  record_from_row r c =
      if not (bytes_eq (path_name r.stored_name) r.stored_name)
      then raise ErrorKind.evidence_catalog_error (text "Stored evidence name is invalid")
      else if not (is_some (find_file r.stored_name c.files))
      then raise ErrorKind.evidence_catalog_error (text "Stored evidence file is missing or unsafe")
      else ok r

  abbrev pub get_row : Option EvidenceRecord → Catalog → Result EvidenceRecord
  get_row none c = raise ErrorKind.evidence_not_found_error (text "Evidence source was not found")
  get_row (some r) c = record_from_row r c

  -- `get`
  unfoldable pub get_source : Text → Catalog → Result EvidenceRecord
  get_source source_id c = get_row (find_source source_id c.sources) c

  abbrev pub compare_file : EvidenceRecord → Option StoredFile → Result (Bool × Text)
  compare_file r none =
      raise ErrorKind.evidence_catalog_error
        (text "Evidence source could not be read for verification")
  compare_file r (some f) =
      if can_read f.name
      then ok (bytes_eq (hexdigest f.content) r.sha256, hexdigest f.content)
      else raise ErrorKind.evidence_catalog_error
          (text "Evidence source could not be read for verification")

  -- `verify`; both digests are hexadecimal, which `compare_digest` takes
  unfoldable pub verify_source : Text → Catalog → Result (Bool × Text)
  verify_source source_id c =
      get_source source_id c >>= λ r. compare_file r (find_file r.stored_name c.files)
