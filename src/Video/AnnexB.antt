-- ===== src/Video/AnnexB.antt =====
-- video/annexb.py: the start-code scanner and the decision between H.264 and H.265. A confidence is
-- in hundredths: the code only produces literals.
pub mod Scanning
pub mod Decision
mod Tests
use sih.Common.{
  ℕ, zero, suc, ◌+◌, ◌/◌, ◌%◌, Bool, true, false, ◌&&◌, ◌||◌, Option, none, some, String, List, [],
  ◌∷◌, ◌++◌, length, slice, get_elem?, ltb, ◌==◌, if◌then◌else◌, Result, ok, raise, ◌>>=◌,
  ErrorKind, text,
}
use sih.Common.Bytes.{Bytes, bytes_eq}
use sih.Common.Int.{ℤ, pos, negsuc}

pub data VideoCodec : Type 0 where
  h264 h265 : VideoCodec

pub record NalObservation : Type 0 where
  pub start_code_offset : ℕ
  pub header_offset : ℕ
  pub header_byte : ℕ
  pub h264_type : ℕ
  pub h265_type : ℕ

pub record ValidationResult : Type 0 where
  pub codec : Option VideoCodec
  pub confidence : ℕ
  pub bytes_scanned : ℕ
  pub observations : List NalObservation
  pub evidence : List String
  pub warnings : List String

-- `AnnexBValidationResult.is_valid`
unfoldable pub is_valid : ValidationResult → Bool
is_valid r = elim r.codec [ none ↦ false | some c ↦ true ]

abbrev pub long_start_code : Bytes
long_start_code = 0 ∷ 0 ∷ 0 ∷ 1 ∷ []

abbrev pub start_code : Bytes
start_code = 0 ∷ 0 ∷ 1 ∷ []

-- The length of the start code at `position`, 0 if there is none.
unfoldable pub start_code_length : Bytes → ℕ → ℕ
start_code_length chunk position =
    if bytes_eq (slice chunk position 4) long_start_code
    then 4
    else if bytes_eq (slice chunk position 3) start_code
    then 3
    else 0

-- `x & 0x1F` is `x % 32`, `(x >> 1) & 0x3F` is `x / 2 % 64`.
unfoldable pub observation : ℕ → ℕ → ℕ → ℕ → NalObservation
observation source_offset position header_offset header_byte = record {
  start_code_offset = source_offset + position;
  header_offset = source_offset + header_offset;
  header_byte = header_byte;
  h264_type = header_byte % 32;
  h265_type = header_byte / 2 % 64;
}

-- The loop of `_observe_chunk`, on fuel.
unfoldable pub observe_from : ℕ → Bytes → ℕ → ℕ → List NalObservation → Result (List NalObservation)
observe_from zero chunk source_offset position observations = raise ErrorKind.out_of_fuel (text "")
observe_from (suc fuel) chunk source_offset position observations =
    elim (ltb (position + 3) (length chunk)) [
      | false ↦ ok observations
      | true ↦
          let count = start_code_length chunk position in
          elim (count == 0) [
            | true ↦ observe_from fuel chunk source_offset (position + 1) observations
            | false ↦ elim (get_elem? chunk (position + count)) [
              | none ↦ ok observations
              | some header_byte ↦ observe_from fuel chunk source_offset (position + count + 1) (
                  observations
                  ++ observation source_offset position (position + count) header_byte ∷ [])
            ]
          ]
    ]

-- `_observe_chunk`
unfoldable pub observe_chunk : Bytes → ℕ → Result (List NalObservation)
observe_chunk chunk source_offset = observe_from (suc (length chunk)) chunk source_offset 0 []

-- The first loop of `validate_annex_b_chunks`: the observations and the bytes scanned.
unfoldable pub observe_chunks :
    List (Bytes × ℤ) → List NalObservation → ℕ → Result (List NalObservation × ℕ)
observe_chunks [] observations bytes_scanned = ok (observations, bytes_scanned)
observe_chunks ((chunk, negsuc n) ∷ rest) observations bytes_scanned =
    raise ErrorKind.value_error (text "Annex-B source offset cannot be negative")
observe_chunks ((chunk, pos source_offset) ∷ rest) observations bytes_scanned = do
  found ← observe_chunk chunk source_offset
  observe_chunks rest (observations ++ found) (bytes_scanned + length chunk)

-- `t in h264_types` and `t in h265_types`
abbrev pub has_h264 : ℕ → List NalObservation → Bool
has_h264 t [] = false
has_h264 t (o ∷ os) = (o.h264_type == t) || has_h264 t os

abbrev pub has_h265 : ℕ → List NalObservation → Bool
has_h265 t [] = false
has_h265 t (o ∷ os) = (o.h265_type == t) || has_h265 t os

-- The decision of `validate_annex_b_chunks` on what was observed.
unfoldable pub decide : List NalObservation → ℕ → ValidationResult
decide observations bytes_scanned =
    let h264_parameters = has_h264 7 observations && has_h264 8 observations in
    let h265_parameters =
      has_h265 32 observations && (has_h265 33 observations && has_h265 34 observations) in
    let h264_idr = has_h264 5 observations in
    let h265_idr = has_h265 19 observations || has_h265 20 observations in
    if h264_parameters && h265_parameters
    then record {
      codec = none;
      confidence = 0;
      bytes_scanned = bytes_scanned;
      observations = observations;
      evidence = [];
      warnings = "Annex-B stream contains conflicting H.264 and H.265 parameter sets" ∷ [];
    }
    else if h264_parameters
    then record {
      codec = some h264;
      confidence = if h264_idr then 98 else 90;
      bytes_scanned = bytes_scanned;
      observations = observations;
      evidence =
          "Observed H.264 SPS NAL unit (type 7)"
          ∷ "Observed H.264 PPS NAL unit (type 8)"
          ∷ (if h264_idr then "Observed H.264 IDR picture NAL unit (type 5)" ∷ [] else []);
      warnings = [];
    }
    else if h265_parameters
    then record {
      codec = some h265;
      confidence = if h265_idr then 98 else 92;
      bytes_scanned = bytes_scanned;
      observations = observations;
      evidence =
          "Observed H.265 VPS NAL unit (type 32)"
          ∷ "Observed H.265 SPS NAL unit (type 33)"
          ∷ "Observed H.265 PPS NAL unit (type 34)"
          ∷ (if h265_idr then "Observed H.265 IDR picture NAL unit (type 19 or 20)" ∷ [] else []);
      warnings = [];
    }
    else record {
      codec = none;
      confidence = 0;
      bytes_scanned = bytes_scanned;
      observations = observations;
      evidence = [];
      warnings = "No complete H.264 or H.265 Annex-B parameter-set sequence was observed" ∷ [];
    }

-- `validate_annex_b_chunks`
unfoldable pub validate_annex_b_chunks : List (Bytes × ℤ) → Result ValidationResult
validate_annex_b_chunks chunks = do
  (observations, bytes_scanned) ← observe_chunks chunks [] 0
  ok (decide observations bytes_scanned)

-- `validate_annex_b`
unfoldable pub validate_annex_b : Bytes → ℤ → Result ValidationResult
validate_annex_b chunk source_offset = validate_annex_b_chunks ((chunk, source_offset) ∷ [])
