-- ===== src/Video/AnnexB/Tests.antt =====
-- The validator on short streams, and its theorems at them.
use sih.Common.{
  ◌≡◌, refl, some, none, List, [], ◌∷◌, Option, ok, Result, err, raise, ErrorKind, text, ◌⊎◌,
}
use sih.Common.Bytes.{Bytes}
use sih.Common.Int.{ℤ, pos, negsuc}
use sih.Video.AnnexB.{
  VideoCodec, h264, NalObservation, ValidationResult, start_code_length, observation, observe_from,
  observe_chunk, observe_chunks, decide, validate_annex_b_chunks, validate_annex_b,
}
use sih.Video.AnnexB.Scanning.{Observes, observe_chunk_lem}
use sih.Video.AnnexB.Decision.{
  ObservesAll, HasNegative, total_length, IsDecided, validate_annex_b_chunks_lem,
}

abbrev stream : Bytes
stream = 0 ∷ 0 ∷ 0 ∷ 1 ∷ 0x67 ∷ 9 ∷ 0 ∷ 0 ∷ 1 ∷ 0x68 ∷ 0 ∷ 0 ∷ 1 ∷ 0x65 ∷ []

abbrev codec_of : Result ValidationResult → Option VideoCodec
codec_of (ok r) = r.codec
codec_of (err e) = none

validate_stream : codec_of (validate_annex_b stream (pos 100)) ≡ some h264
unfolding validate_annex_b validate_annex_b_chunks observe_chunks observe_chunk observe_from
    start_code_length observation decide
validate_stream = refl

-- The second start code begins on the header byte of the first, and is missed.
observe_overlap :
    observe_chunk (0 ∷ 0 ∷ 1 ∷ 0 ∷ 0 ∷ 1 ∷ 0x67 ∷ []) 0
    ≡ ok (
        record {
          start_code_offset = 0;
          header_offset = 3;
          header_byte = 0;
          h264_type = 0;
          h265_type = 0;
        }
        ∷ [])
unfolding observe_chunk observe_from start_code_length observation
observe_overlap = refl

observe_chunk_lem_example :
    (os : List NalObservation) × (observe_chunk stream 100 ≡ ok os) × Observes stream 100 0 os
observe_chunk_lem_example = observe_chunk_lem stream 100

abbrev chunks : List (Bytes × ℤ)
chunks = (stream, pos 100) ∷ (0 ∷ 0 ∷ 1 ∷ 0x41 ∷ [], pos 400) ∷ []

validate_negative :
    validate_annex_b stream (negsuc 0)
    ≡ raise ErrorKind.value_error (text "Annex-B source offset cannot be negative")
unfolding validate_annex_b validate_annex_b_chunks observe_chunks
validate_negative = refl

validate_annex_b_chunks_lem_example :
    ((¬ HasNegative chunks)
      × ((r : ValidationResult) × (validate_annex_b_chunks chunks ≡ ok r)
          × ObservesAll chunks r.observations
          × (r.bytes_scanned ≡ total_length chunks)
          × IsDecided r.observations r))
    ⊎ (HasNegative chunks
        × (validate_annex_b_chunks chunks
            ≡ raise ErrorKind.value_error (text "Annex-B source offset cannot be negative")))
validate_annex_b_chunks_lem_example = validate_annex_b_chunks_lem chunks
