-- ===== src/Hikvision/Adapter/Tests.antt =====
-- The adapter on the sample disk.
use sih.Common.{ℕ, ◌≡◌, List, All, Option, min, [], ◌∷◌, ok, arith}
use sih.Common.Ensures.{Ensures}
use sih.Hikvision.Sample.{disk, disk_evidence, disk-IsImage}
use sih.Hikvision.Structures.{MasterSector}
use sih.Hikvision.Hikbtree.Entry.{DataEntry}
use sih.Hikvision.Adapter.{find_signature, enumerate_entries}
use sih.Hikvision.Adapter.Scan.{Scanned, find_signature_lem}
use sih.Hikvision.Adapter.Recordings.{Never, Lists, enumerate_entries-Ensures}
use sih.Hikvision.Adapter.Probe.{probe}
use sih.Hikvision.Adapter.Confidence.{IsProbed, probe-Ensures}
use sih.Hikvision.Adapter.Extraction.{
  IsInside, IsExtractionError, validate_extents, validate_extents-Ensures,
}
use sih.Adapter.{PhysicalExtent}

abbrev master : MasterSector
master = record {
  signature_offset = 0;
  filesystem_base_offset = 0;
  hdd_capacity = 5120;
  system_log_offset = 0;
  system_log_size = 0;
  video_data_offset = 4608;
  data_block_size = 512;
  total_data_blocks = 1;
  primary_tree_offset = 256;
  primary_tree_size = 0;
  secondary_tree_offset = 256;
  secondary_tree_size = 0;
  initialization_time_raw = 0;
}

abbrev entry : ℕ → DataEntry
entry data_offset = record {
  metadata_offset = 592;
  page_offset = 512;
  status_raw = 0 ∷ 0 ∷ 0 ∷ 0 ∷ 0 ∷ 0 ∷ 0 ∷ 0 ∷ [];
  channel = 3;
  start_time_raw = 1700000000;
  end_time_raw = 1700000060;
  data_offset = data_offset;
}

-- One block lies inside the image, the other does not.
enumerate_entries-Ensures_example :
    Ensures Never
      (Lists disk_evidence master (entry 4608 ∷ entry 4609 ∷ []))
      (enumerate_entries disk_evidence master (entry 4608 ∷ entry 4609 ∷ []))
enumerate_entries-Ensures_example =
    enumerate_entries-Ensures disk_evidence master (omega arith) (entry 4608 ∷ entry 4609 ∷ [])

-- Chunks of 18 bytes, over the first 4000 bytes.
find_signature_lem_example :
    (r : Option ℕ) × (find_signature 4000 18 disk_evidence ≡ ok r)
    × Scanned disk (min disk_evidence.size 4000) r
find_signature_lem_example =
    find_signature_lem disk_evidence disk 8192 4000 18 disk-IsImage (omega arith) (omega arith)

probe-Ensures_example :
    Ensures Never
      (IsProbed disk_evidence disk (min disk_evidence.size 4000))
      (probe 4000 18 disk_evidence)
probe-Ensures_example = probe-Ensures disk-IsImage (omega arith) 4000 18 (omega arith) (omega arith)

abbrev extents : List PhysicalExtent
extents = record { offset = 4608; length = 512 } ∷ record { offset = 5000; length = 121 } ∷ []

validate_extents-Ensures_example :
    Ensures IsExtractionError
      (λ done. All (IsInside disk_evidence) extents)
      (validate_extents disk_evidence extents)
validate_extents-Ensures_example = validate_extents-Ensures disk_evidence extents
