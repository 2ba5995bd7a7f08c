-- ===== src/Lib.antt =====
-- ForenX: the forensic core of the repository, in `src/forenx`.
--
-- The program reads a disk image of a video recorder, finds the vendor's filesystem on it,
-- enumerates and validates recordings, and keeps a hash-linked record of what was done. Bytes and
-- code points are numbers, a Python exception is a value of `Common.Exceptions.Error`, and a loop
-- without a structural measure runs on fuel that the theorems show to suffice.
--
-- Evidence (src/forenx/evidence/source.py): `RawEvidenceSource` as a record of the file's size, the
--   read limit, the closed flag and a function for `os.pread`. `open_source` is `__init__`; `close`,
--   `validate_range`, `read_at`, `sha256` and `verify_sha256` are the methods of those names. The
--   hash loop has one step of fuel per byte and one more. Every adapter sees a source through
--   `ReadableEvidence` (src/forenx/adapters/base.py), and `IsImage` says what it relies on: reads
--   inside the image and within the limit return the image's bytes.
-- Adapter (src/forenx/adapters/base.py): the records that adapters produce, with the checks of
--   their `__post_init__`. A confidence is a whole number of hundredths.
-- Registry (src/forenx/adapters/registry.py): the registered adapters, `probe_all`, `best_match` and
--   the default registry with the adapter below. An error of an adapter is a failure of the report.
--   The difference of two confidences is that of the floats (Common/Double).
-- Hikvision/Structures (src/forenx/adapters/hikvision/structures.py): the master sector.
-- Hikvision/Hikbtree (src/forenx/adapters/hikvision/hikbtree.py): the index of recordings. Entry
--   holds the records, Reader the parser's state, bounds checks and header, PageList and PageData
--   the choice between the two observed layouts and the entries; `parse` composes them.
-- Hikvision/Adapter (src/forenx/adapters/hikvision/adapter.py): the search for the signature, on
--   one step of fuel per scanned byte, the partition that holds it, and the recordings. Its child
--   Probe is `probe`, and Extraction has the checks that `extract` makes before it writes.
-- Video/AnnexB (src/forenx/video/annexb.py): the scanner for NAL headers, on one step of fuel per
--   byte, and the decision between H.264 and H.265.
-- Custody (src/forenx/custody/ledger.py): the ledger as a list of events, which `append`
--   returns as it leaves it. Canonical JSON and SHA-256 are the fields of `Platform`; the clock and
--   `uuid4` are arguments of `append`.
--
-- Cases (src/forenx/cases/domain.py, src/forenx/cases/store.py): Domain has the workflow and the
--   records, Tables the SQLite tables as lists with the constraints of the schema, Queries the shared
--   checks, Activity the hash-linked activity of a case, and Store the other
--   methods of `CaseStore`. A transaction that raises is rolled back, so an error carries no
--   database. `uuid4`, the clock, JSON and SHA-256 are given to the operations.
--
-- Auth (src/forenx/auth/store.py): Domain has the roles and rows, Tables the statements on the tables,
--   Actions the monad of a method that reads and writes them, with `_write_transaction`: an
--   authentication error keeps what was written, any other error takes it back. Password is the
--   hasher over scrypt; Checks, Accounts, Sessions, Challenges and Audit have the methods of
--   `AuthStore`. Framing has one lemma per method: a property that the single writes keep, the
--   method keeps on every way out. Calls joins the methods to the steps of a store. SHA-256, scrypt,
--   the tables of characters, the clock and `secrets` are given; a time is its microseconds.
--
-- Catalog (src/forenx/evidence/catalog.py): the table of evidence and the vault as lists; Ingest is
--   `ingest` with `_write_all`, on one step of fuel per byte and one more, and Derived is
--   `register_derived_file`; Listing is `list_for_case`. A failure behind the creation
--   of a file removes it where the code does. `unquote`, `pathlib`, SHA-256, `os.write`,
--   `os.fsync`, `os.chmod` of a new file and a failing INSERT are given.
--
-- Not modelled: the other databases, the HTTP interface, PDF reports, packages, biometrics and the
-- subprocesses that decode video.
pub mod Common
pub mod Evidence
pub mod Adapter
pub mod Hikvision
pub mod Video
pub mod Custody
pub mod Cases
pub mod Auth
pub mod Catalog
pub mod Registry
