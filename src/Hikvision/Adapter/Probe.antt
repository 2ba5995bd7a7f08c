-- ===== src/Hikvision/Adapter/Probe.antt =====
-- `probe` of adapters/hikvision/adapter.py. The pieces of evidence have a description and an offset,
-- so their own checks pass.
use sih.Common.{
  ℕ, zero, suc, ◌+◌, ◌/◌, ◌%◌, min, List, [], ◌∷◌, Option, none, some, Message, format, ErrorKind,
  Error, Result, ok, err, ◌>>=◌,
}
use sih.Common.Bytes.{Bytes}
use sih.Evidence.Readable.{ReadableEvidence}
use sih.Adapter.{
  AdapterCapability, device_metadata, enumerate_active, extract, ProbeEvidence, ProbeResult,
  checked_probe,
}
use sih.Hikvision.Structures.{hikvision_signature, MasterSector, validate}
use sih.Hikvision.Adapter.{find_signature, filesystem_base_offset, read_master_sector}

-- `n.to_bytes(count, "little")`
abbrev pub to_little : ℕ → ℕ → Bytes
to_little zero n = []
to_little (suc count) n = n % 256 ∷ to_little count (n / 256)

abbrev pub signature_evidence : ℕ → ProbeEvidence
signature_evidence signature_offset = record {
  description = "Exact Hikvision filesystem signature";
  offset = signature_offset;
  observed = hikvision_signature;
}

abbrev pub block_size_evidence : ℕ → MasterSector → ProbeEvidence
block_size_evidence signature_offset master = record {
  description = "Observed little-endian video data-block size";
  offset = signature_offset + 0x78;
  observed = to_little 8 master.data_block_size;
}

abbrev pub probe_result :
    ℕ → List ProbeEvidence → List AdapterCapability → List Message → ProbeResult
probe_result confidence evidence capabilities warnings = record {
  adapter_id = "hikvision";
  vendor = "Hikvision";
  filesystem = "Hikvision proprietary DVR filesystem";
  confidence = confidence;
  evidence = evidence;
  capabilities = capabilities;
  warnings = warnings;
}

-- `0.95 if not warnings else 0.75`, in hundredths
abbrev pub layout_confidence : List Message → ℕ
layout_confidence [] = 95
layout_confidence (w ∷ ws) = 75

-- The end of `probe`, with the master sector.
unfoldable pub probe_master : ReadableEvidence → ℕ → MasterSector → Result ProbeResult
probe_master source signature_offset master =
    let warnings = validate master source.size in
    checked_probe (
      probe_result (layout_confidence warnings)
        (signature_evidence signature_offset ∷ block_size_evidence signature_offset master ∷ [])
        (device_metadata ∷ enumerate_active ∷ extract ∷ []) warnings)

-- `except HikvisionFormatError as exc`
abbrev pub probe_error : ℕ → Error → ErrorKind → Result ProbeResult
probe_error signature_offset e ErrorKind.hikvision_format_error =
    checked_probe (probe_result 55 (signature_evidence signature_offset ∷ []) [] (e.message ∷ []))
probe_error signature_offset e _ = err e

-- The `try` of `probe`.
unfoldable pub try_master : ReadableEvidence → ℕ → Result MasterSector
try_master source signature_offset = do
  base ← filesystem_base_offset source signature_offset
  read_master_sector source signature_offset base

unfoldable pub probe_at : ReadableEvidence → ℕ → Result ProbeResult
probe_at source signature_offset = elim (try_master source signature_offset) [
  | err e ↦ probe_error signature_offset e e.kind
  | ok master ↦ probe_master source signature_offset master
]

-- `probe`, with what `_find_signature` returned.
abbrev pub probe_found : ℕ → ReadableEvidence → Option ℕ → Result ProbeResult
probe_found scan_limit source none = checked_probe (
    probe_result 0 [] [] (
      format "Hikvision signature was not observed in the first {} bytes"
        (min source.size scan_limit ∷ [])
      ∷ []))
probe_found scan_limit source (some signature_offset) = probe_at source signature_offset

-- `probe`
unfoldable pub probe : ℕ → ℕ → ReadableEvidence → Result ProbeResult
probe scan_limit scan_chunk_size source = do
  found ← find_signature scan_limit scan_chunk_size source
  probe_found scan_limit source found
