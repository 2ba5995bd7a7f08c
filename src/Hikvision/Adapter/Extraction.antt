-- ===== src/Hikvision/Adapter/Extraction.antt =====
-- What `extract` of adapters/hikvision/adapter.py checks before it writes: the extents and the
-- bitstream at their front.
use sih.Common.{
  ℕ, ◌+◌, ◌-◌, ◌*◌, ◌≤◌, ◌≡◌, refl, min, true, false, ◌||◌, List, [], ◌∷◌, ltb, ◌==◌, text,
  ErrorKind, Result, ok, raise_if, ◌>>=◌, ◌>>◌, All, arith,
}
use sih.Common.Bytes.{Bytes}
use sih.Common.Ensures.{Ensures, Ensures-raise_if, Ensures-weaken, returns}
use sih.Evidence.Readable.{ReadableEvidence}
use sih.Adapter.{PhysicalExtent}
use sih.Common.Int.{ℤ, pos}
use sih.Video.AnnexB.{ValidationResult, validate_annex_b_chunks}

abbrev pub codec_scan_limit : ℕ
codec_scan_limit = 4 * 1024 * 1024

-- `_validate_extents`
unfoldable pub validate_extents : ReadableEvidence → List PhysicalExtent → Result (Unit {0})
validate_extents source [] = ok tt
validate_extents source (e ∷ es) = do
  raise_if (ltb source.size e.offset || ltb (source.size - e.offset) e.length)
      ErrorKind.extraction_error (text "Recording extent is outside the evidence image")
  validate_extents source es

-- The chunks that the loop of `_validate_bitstream` collects.
unfoldable pub codec_chunks : ReadableEvidence → ℕ → List PhysicalExtent → Result (List (Bytes × ℤ))
codec_chunks source remaining_scan [] = ok []
codec_chunks source remaining_scan (e ∷ es) = elim (remaining_scan == 0) [
  | true ↦ ok []
  | false ↦ (do
    let read_length = min e.length remaining_scan
    chunk ← source.read_at e.offset read_length
    rest ← codec_chunks source (remaining_scan - read_length) es
    ok ((chunk, pos e.offset) ∷ rest))
]

-- `_validate_bitstream`
unfoldable pub validate_bitstream : ReadableEvidence → List PhysicalExtent → Result ValidationResult
validate_bitstream source extents = do
  chunks ← codec_chunks source codec_scan_limit extents
  validate_annex_b_chunks chunks

abbrev pub IsInside : ReadableEvidence → PhysicalExtent → Type 0
IsInside source e = e.offset + e.length ≤ source.size

abbrev pub IsExtractionError : ErrorKind → Type 0
IsExtractionError k = k ≡ ErrorKind.extraction_error

-- The check of the extents raises ExtractionError, or every extent lies inside the image.
pub validate_extents-Ensures :
    (source : ReadableEvidence) (extents : List PhysicalExtent)
    → Ensures IsExtractionError
        (λ done. All (IsInside source) extents)
        (validate_extents source extents)
unfolding validate_extents
validate_extents-Ensures source [] = returns tt tt
validate_extents-Ensures source (e ∷ es) =
    Ensures-raise_if (ltb source.size e.offset || ltb (source.size - e.offset) e.length) _ _ _ refl
      λ inside.
        Ensures-weaken _ (λ done rest. (ground arith, rest)) (validate_extents-Ensures source es)
