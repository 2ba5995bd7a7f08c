-- ===== src/Catalog/Tests.antt =====
-- Witnesses of the theorems on the evidence catalog, with a system that writes two bytes at a time.
use sih.Common.{
  min, ◌≡◌, ◌≢◌, refl, true, false, none, some, [], ◌∷◌, length, if◌then◌else◌, ok, arith,
}
use sih.Common.Bytes.{bytes_eq}
use sih.Common.Int.{pos}
use sih.Common.Text.{Text, codes, strip, lstrip, rstrip, is_space, is_blank}
use sih.Cases.Queries.{naive, aware}
use sih.Catalog.{
  Platform, Catalog, EvidenceRecord, EvidenceMediaKind, normalized_time, require_identifier,
  any_control, any_unsafe, in_range, valid_sha256, find_source, has_stored_name, has_artifact,
  has_key, find_file, broken_constraint, safe_filename, record_from_row, get_source, verify_source,
}
use sih.Catalog.Ingest.{
  Piece, IngestRequest, write_all, receive, receive_all, check_request, ingest,
}
use sih.Catalog.Derived.{
  DerivedRequest, check_source, check_derived, copy, copy_all, register_derived_file,
}
use sih.Catalog.Writing.{write_all-fuel, out_of_fuel}
use sih.Catalog.Names.{has_slash, IsPathName, IsUuid}
use sih.Catalog.Storing.{IngestOutcome, ingest-IngestOutcome, ingest-verify_source}
use sih.Catalog.Provenance.{DerivedOutcome, register_derived_file-DerivedOutcome}

abbrev digest : Text
digest = codes "00000000000000000000000000000000000000000000000000000000000000aa"

-- The part of a path behind its last slash.
abbrev last_part : Text → Text
last_part [] = []
last_part (c ∷ s) = let later = last_part s in if has_slash (c ∷ s) then later else c ∷ s

abbrev platform : Platform
platform = record {
  unquote = λ s. s;
  lower_text = λ s. s;
  path_name = last_part;
  path_suffix = λ s. codes ".mp4";
  hexdigest = λ bytes. if bytes_eq bytes (1 ∷ 2 ∷ 3 ∷ []) then digest else codes "other";
  can_create = λ name. true;
  can_read = λ name. true;
  os_write = λ position bytes. ok (min 2 (length bytes));
  fsync = λ bytes. ok tt;
  chmod = λ name. ok tt;
  insert_error = λ row. none;
}

last_part-plain : (s : Text) → has_slash s ≡ false → last_part s ≡ s
last_part-plain [] h = refl
last_part-plain (c ∷ s) h = rw h refl

platform-IsPathName : IsPathName platform
platform-IsPathName = record { component = λ s no_slash long. last_part-plain s no_slash }

-- Two uuids.
abbrev first_id : Text
first_id = codes "11111111-1111-4111-8111-111111111111"

abbrev second_id : Text
second_id = codes "22222222-2222-4222-8222-222222222222"

first_id-IsUuid : IsUuid first_id
first_id-IsUuid = record { length_eq = refl; no_slash = refl }

second_id-IsUuid : IsUuid second_id
second_id-IsUuid = record { length_eq = refl; no_slash = refl }

abbrev empty_vault : Catalog
empty_vault = record {
  sources = [];
  files = [];
  cases = codes "case" ∷ [];
  exhibits = codes "exhibit" ∷ [];
}

abbrev request : IngestRequest
request = record {
  chunks = Piece.piece (1 ∷ []) ∷ Piece.piece [] ∷ Piece.piece (2 ∷ 3 ∷ []) ∷ [];
  case_id = codes "case";
  exhibit_id = codes "exhibit";
  original_filename = codes "film.mp4";
  media_kind = EvidenceMediaKind.video_file;
  created_by = codes "u1";
  declared_size = some (pos 3);
  occurred_at = aware 5;
  source_id = first_id;
}

abbrev ingested : EvidenceRecord
ingested = record {
  source_id = first_id;
  case_id = codes "case";
  exhibit_id = codes "exhibit";
  original_filename = codes "film.mp4";
  stored_name = codes "11111111-1111-4111-8111-111111111111.mp4";
  media_kind = EvidenceMediaKind.video_file;
  byte_size = 3;
  sha256 = digest;
  created_by = codes "u1";
  created_at = 5;
  parent_source_id = none;
  derived_artifact_id = none;
  derivation = none;
}

write_all-fuel_example : write_all platform 4 [] (7 ∷ 8 ∷ 9 ∷ []) ≢ out_of_fuel
write_all-fuel_example =
    write_all-fuel platform 4 [] (7 ∷ 8 ∷ 9 ∷ []) (λ position bytes h. cc) (omega arith)

ingest-IngestOutcome_example :
    IngestOutcome platform 100 request empty_vault (ingest platform 100 request empty_vault)
ingest-IngestOutcome_example =
    ingest-IngestOutcome platform 100 request empty_vault platform-IsPathName first_id-IsUuid

ingest-verify_source_example :
    verify_source platform first_id (ingest platform 100 request empty_vault).0 ≡ ok (true, digest)
unfolding ingest check_request safe_filename strip lstrip rstrip is_space is_blank
    require_identifier any_control any_unsafe receive_all receive write_all find_file
    broken_constraint find_source has_stored_name has_key get_source record_from_row normalized_time
ingest-verify_source_example =
    ingest-verify_source platform 100 request empty_vault
      (ingest platform 100 request empty_vault).0 ingested platform-IsPathName first_id-IsUuid refl
      refl

abbrev with_parent : Catalog
with_parent = record empty_vault {
  sources = ingested ∷ [];
  files =
      record { name = codes "11111111-1111-4111-8111-111111111111.mp4"; content = 1 ∷ 2 ∷ 3 ∷ [] }
      ∷ [];
}

abbrev derived : DerivedRequest
derived = record {
  source = some (record { is_regular = true; st_size = 3; reads = ok (1 ∷ 2 ∷ 3 ∷ []) ∷ [] });
  case_id = codes "case";
  exhibit_id = codes "exhibit";
  parent_source_id = first_id;
  derived_artifact_id = codes "a1";
  original_filename = codes "clip.mp4";
  media_kind = EvidenceMediaKind.video_file;
  expected_sha256 = digest;
  derivation_json = some (codes "{}");
  created_by = codes "u1";
  occurred_at = aware 6;
  source_id = second_id;
}

register_derived_file-DerivedOutcome_example :
    DerivedOutcome platform derived with_parent
      (register_derived_file platform 100 derived with_parent)
register_derived_file-DerivedOutcome_example =
    register_derived_file-DerivedOutcome platform 100 derived with_parent platform-IsPathName
      second_id-IsUuid

-- A time without a zone leaves the file alone.
ingest_naive :
    length (ingest platform 100 (record request { occurred_at = naive }) empty_vault).0.files ≡ 1
unfolding ingest check_request safe_filename strip lstrip rstrip is_space is_blank
    require_identifier any_control any_unsafe receive_all receive write_all find_file
    normalized_time
ingest_naive = refl

-- The registration of the example returns.
register_derived_file_run :
    verify_source platform second_id (register_derived_file platform 100 derived with_parent).0
    ≡ ok (true, digest)
unfolding register_derived_file check_derived safe_filename strip lstrip rstrip is_space is_blank
    require_identifier any_control any_unsafe valid_sha256 in_range check_source copy_all copy
    write_all find_file broken_constraint find_source has_stored_name has_artifact has_key
    get_source record_from_row normalized_time verify_source
register_derived_file_run = refl
