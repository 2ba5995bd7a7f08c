-- ===== src/Hikvision/Adapter/Confidence.antt =====
-- What the confidence of `probe` says of the image.
use sih.Common.{
  ◌-◌, ◌*◌, ◌/◌, ◌%◌, ◌∙◌, subst, length, length-slice, length-slice_in, slice-slice, All,
  All-slice, ℕ, ◌+◌, ◌≢◌, sym, slice, err, ◌≤◌, ◌<◌, ◌≡◌, ◌⊎◌, inl, inr, refl, ap, Message, min,
  Option, none, some, List, [], ◌∷◌, ltb, Error, ok, arith, Result-cases,
}
use sih.Common.Bytes.{Bytes, IsByte, from_little}
use sih.Common.Ensures.{
  Ensures, Ensures-bind, Ensures-if, Ensures-eq, Ensures-weaken, Ensures-error, Ensures-value,
  returns,
}
use sih.Evidence.Readable.{ReadableEvidence, IsImage}
use sih.Adapter.{
  device_metadata, enumerate_active, extract, ProbeEvidence, ProbeResult, checked_probe,
}
use sih.Hikvision.Structures.{hikvision_signature, master_sector_min_size, MasterSector, validate}
use sih.Hikvision.Structures.Parsing.{IsFormatError, IsParsed, from_bytes-Ensures}
use sih.Hikvision.Adapter.{find_signature, filesystem_base_offset, read_master_sector}
use sih.Hikvision.Adapter.Recordings.{Never}
use sih.Hikvision.Adapter.Scan.{Scanned, find_signature_lem}
use sih.Hikvision.Adapter.Probe.{
  to_little, signature_evidence, block_size_evidence, probe_result, layout_confidence, probe_master,
  probe_error, try_master, probe_at, probe_found, probe,
}

-- The first evidence: the bytes of the image at the signature.
abbrev pub signature_of : ℕ → Bytes → ProbeEvidence
signature_of k observed = record {
  description = "Exact Hikvision filesystem signature";
  offset = k;
  observed = observed;
}

abbrev pub signature_at : Bytes → ℕ → ProbeEvidence
signature_at content k = signature_of k (slice content k 18)

-- The second evidence: the bytes of the image that hold the block size.
abbrev pub block_size_of : ℕ → Bytes → ProbeEvidence
block_size_of k observed = record {
  description = "Observed little-endian video data-block size";
  offset = k + 0x78;
  observed = observed;
}

abbrev pub block_size_at : Bytes → ℕ → ProbeEvidence
block_size_at content k = block_size_of k (slice content (k + 0x78) 8)

-- The sector at `k` does not parse, and the warning is the parser's message.
pub record LacksSector (source : ReadableEvidence) (content : Bytes) (k : ℕ) (r : ProbeResult)
    : Type 0 where
  pub failed :
      (e : Error) × (try_master source k ≡ err e)
      × IsFormatError e.kind
      × (r.warnings ≡ e.message ∷ [])
  pub confidence : r.confidence ≡ 55
  pub capabilities : r.capabilities ≡ []
  pub evidence : r.evidence ≡ signature_at content k ∷ []

-- The sector at `k` parses to `m`, and the confidence tells whether its layout has a warning.
pub record HasSector (source : ReadableEvidence) (content : Bytes) (k : ℕ) (m : MasterSector)
    (r : ProbeResult) : Type 0 where
  pub parsed : try_master source k ≡ ok m
  pub confidence :
      ((validate m source.size ≡ []) × (r.confidence ≡ 95))
      ⊎ ((validate m source.size ≢ []) × (r.confidence ≡ 75))
  pub warnings : r.warnings ≡ validate m source.size
  pub capabilities : r.capabilities ≡ device_metadata ∷ enumerate_active ∷ extract ∷ []
  pub evidence : r.evidence ≡ signature_at content k ∷ block_size_at content k ∷ []

-- What a probe reports of an image whose first signature is at `k`.
abbrev pub IsIdentified : ReadableEvidence → Bytes → ℕ → ProbeResult → Type 0
IsIdentified source content k r =
    LacksSector source content k r ⊎ ((m : MasterSector) × HasSector source content k m r)

abbrev pub IsProbed : ReadableEvidence → Bytes → ℕ → ProbeResult → Type 0
IsProbed source content scan r =
    ((r.confidence ≡ 0) × (r.evidence ≡ []) × (r.capabilities ≡ []) × Scanned content scan none)
    ⊎ ((k : ℕ) × Scanned content scan (some k) × IsIdentified source content k r)

to_little-from_little : (bs : Bytes) → All IsByte bs → to_little (length bs) (from_little bs) ≡ bs
to_little-from_little [] h = refl
to_little-from_little (b ∷ bs) h =
    let byte = h.0 in
    let rest = to_little-from_little bs h.1 in
    let low : (b + 256 * from_little bs) % 256 ≡ b = omega (arith, byte) in
    let high : (b + 256 * from_little bs) / 256 ≡ from_little bs = omega (arith, byte) in
    rw (low, high) (ap (λ t. b ∷ t) rest)

module _ {source : ReadableEvidence} {content : Bytes} {limit : ℕ}
    (image : IsImage source content limit) (fits : 512 ≤ limit) where
  filesystem_base_offset-Ensures :
      (k : ℕ) → Ensures IsFormatError (λ base. Unit) (filesystem_base_offset source k)
  unfolding filesystem_base_offset
  filesystem_base_offset-Ensures k =
      Ensures-if (ltb source.size 512) _ _ (λ small. returns 0 tt)
        λ big.
          Ensures-bind {P = λ mbr. Unit {0}} (source.read_at 0 512) _
            (Ensures-eq _ _ (image.read_eq 0 512 (omega arith) (ground (arith, image.size_eq))) tt)
            λ mbr read. returns _ tt

  -- The block size of a sector of the image, written as eight bytes, is what the image has there.
  block_size_bytes :
      (k n base : ℕ) (sector : Bytes) (m : MasterSector)
      → sector ≡ slice content k n
      → IsParsed sector k base m
      → to_little 8 m.data_block_size ≡ slice content (k + 0x78) 8
  block_size_bytes k n base sector m read parsed =
      let field = slice sector 0x78 8 in
      let size = ap (λ x. x.data_block_size) parsed.fields in
      let room : 0x78 + 8 ≤ n =
        omega (arith, parsed.long_enough, ap length read, length-slice content k n) in
      let there : field ≡ slice content (k + 0x78) 8 =
        ap (λ bs. slice bs 0x78 8) read ∙ slice-slice content k n 0x78 8 room in
      let bytes : All IsByte field =
        subst (All IsByte) (sym there) (All-slice IsByte content (k + 0x78) 8 image.bytes) in
      let long : length field ≡ 8 =
        length-slice_in sector 0x78 8 (omega (arith, parsed.long_enough)) in
      ap (to_little 8) size
      ∙ (subst (λ count. to_little count (from_little field) ≡ field) long
            (to_little-from_little field bytes)
          ∙ there)

  try_master-Ensures :
      (k : ℕ)
      → k ≤ source.size
      → Ensures IsFormatError
          (λ m. to_little 8 m.data_block_size ≡ slice content (k + 0x78) 8)
          (try_master source k)
  unfolding try_master read_master_sector
  try_master-Ensures k inside =
      Ensures-bind (filesystem_base_offset source k) _ (filesystem_base_offset-Ensures k) λ base _.
        Ensures-bind
          {P = λ sector. sector ≡ slice content k (min master_sector_min_size (source.size - k))}
          (source.read_at k _) _
          (Ensures-eq _ _ (image.read_eq k _ (omega arith) (omega (arith, image.size_eq))) refl)
          λ sector read.
            Ensures-weaken _ (λ m parsed. block_size_bytes k _ base sector m read parsed)
              (from_bytes-Ensures sector k base)

  -- The evidence holds the signature, which is what the image has there.
  signature_evidence-signature_at :
      (k : ℕ)
      → slice content k 18 ≡ hikvision_signature
      → signature_evidence k ≡ signature_at content k
  signature_evidence-signature_at k there = sym (ap (signature_of k) there)

  evidence-same :
      (k : ℕ) (m : MasterSector)
      → slice content k 18 ≡ hikvision_signature
      → to_little 8 m.data_block_size ≡ slice content (k + 0x78) 8
      → signature_evidence k ∷ block_size_evidence k m ∷ []
        ≡ signature_at content k ∷ block_size_at content k ∷ []
  evidence-same k m there sized i =
      signature_evidence-signature_at k there i ∷ block_size_of k (sized i) ∷ []

  identified :
      (k : ℕ) (m : MasterSector) (ws : List Message)
      → slice content k 18 ≡ hikvision_signature
      → to_little 8 m.data_block_size ≡ slice content (k + 0x78) 8
      → try_master source k ≡ ok m
      → ws ≡ validate m source.size
      → Ensures Never (IsIdentified source content k) (
          checked_probe (
            probe_result
              (layout_confidence ws)
              (signature_evidence k ∷ block_size_evidence k m ∷ [])
              (device_metadata ∷ enumerate_active ∷ extract ∷ [])
              ws))
  unfolding checked_probe
  identified k m [] there sized parsed same = returns _ (
      inr (
        m,
        record {
          parsed = parsed;
          confidence = inl (sym same, refl);
          warnings = same;
          capabilities = refl;
          evidence = evidence-same k m there sized;
        },
      ))
  identified k m (w ∷ ws) there sized parsed same = returns _ (
      inr (
        m,
        record {
          parsed = parsed;
          confidence = inr (λ none_left. cc (same, none_left), refl);
          warnings = same;
          capabilities = refl;
          evidence = evidence-same k m there sized;
        },
      ))

  probe_master-Ensures :
      (k : ℕ) (m : MasterSector)
      → slice content k 18 ≡ hikvision_signature
      → to_little 8 m.data_block_size ≡ slice content (k + 0x78) 8
      → try_master source k ≡ ok m
      → Ensures Never (IsIdentified source content k) (probe_master source k m)
  unfolding probe_master
  probe_master-Ensures k m there sized parsed =
      identified k m (validate m source.size) there sized parsed refl

  probe_error-Ensures :
      (k : ℕ) (e : Error)
      → slice content k 18 ≡ hikvision_signature
      → try_master source k ≡ err e
      → IsFormatError e.kind
      → Ensures Never (IsIdentified source content k) (probe_error k e e.kind)
  unfolding checked_probe
  probe_error-Ensures k e there raised format_error = rw format_error (
      returns _ (
        inl (record {
          failed = (e, raised, format_error, refl);
          confidence = refl;
          capabilities = refl;
          evidence = ap (λ x. x ∷ []) (signature_evidence-signature_at k there);
        })))

  probe_at-Ensures :
      (k : ℕ)
      → k ≤ source.size
      → slice content k 18 ≡ hikvision_signature
      → Ensures Never (IsIdentified source content k) (probe_at source k)
  unfolding probe_at
  probe_at-Ensures k inside there = elim (Result-cases (try_master source k)) [
    | inl (m, parsed) ↦
        rw (probe_at, parsed)
          (probe_master-Ensures k m there (Ensures-value _ (try_master-Ensures k inside) m parsed)
            parsed)
    | inr (e, raised) ↦
        rw (probe_at, raised)
          (probe_error-Ensures k e there raised
            (Ensures-error _ (try_master-Ensures k inside) e raised))
  ]

  probe_found-Ensures :
      (scan_limit : ℕ) (found : Option ℕ)
      → Scanned content (min source.size scan_limit) found
      → Ensures Never
          (IsProbed source content (min source.size scan_limit))
          (probe_found scan_limit source found)
  unfolding checked_probe
  probe_found-Ensures scan_limit none absent = returns _ (inl (refl, refl, refl, absent))
  probe_found-Ensures scan_limit (some k) first =
      Ensures-weaken _ (λ r identified_as. inr (k, first, identified_as))
        (probe_at-Ensures k (omega (arith, first.0)) first.1)

  -- `probe` raises nothing on any image, if reads of 512 bytes and of a chunk are allowed. Its
  -- confidence is 0, without evidence, where the scanned bytes hold no signature. Else its first
  -- evidence is the bytes of the first signature, and either the master sector there fails to parse,
  -- and the confidence is 0.55 with no capability and the parser's message as the warning, or it
  -- parses, and the confidence is 0.95 where `validate` has no warning on it and 0.75 where it has
  -- some, with these warnings, the three capabilities and the image's bytes of the block size
  -- as further evidence.
  pub probe-Ensures :
      (scan_limit scan_chunk_size : ℕ)
      → 0 < scan_chunk_size
      → scan_chunk_size ≤ limit
      → Ensures Never
          (IsProbed source content (min source.size scan_limit))
          (probe scan_limit scan_chunk_size source)
  unfolding probe
  probe-Ensures scan_limit scan_chunk_size some_chunk chunk_fits =
      let (r, ran, right) =
        find_signature_lem source content limit scan_limit scan_chunk_size image some_chunk
          chunk_fits in
      Ensures-bind {P = Scanned content (min source.size scan_limit)}
        (find_signature scan_limit scan_chunk_size source) _ (Ensures-eq _ r ran right)
        λ found scanned. probe_found-Ensures scan_limit found scanned
