-- ===== src/Video/AnnexB/Decision.antt =====
-- The codec decision against the sets of NAL types, and the whole validator over its chunks.
use sih.Common.{
  ℕ, ◌+◌, ◌≡◌, ◌↔◌, ◌⊎◌, inl, inr, refl, ap, sym, subst, ◌∙◌, true, ◌&&◌, none, some, List, [], ◌∷◌,
  ◌++◌, length, ok, raise, ErrorKind, text, arith, Bool-cases,
}
use mathlib.Core.List.{append_assoc, append-nil}
use sih.Common.Bytes.{Bytes}
use sih.Common.Int.{ℤ, pos, negsuc}
use sih.Video.AnnexB.{
  h264, h265, NalObservation, ValidationResult, has_h264, has_h265, decide, observe_chunks,
  validate_annex_b_chunks,
}
use sih.Video.AnnexB.Scanning.{Observes, observe_chunk_lem}

-- Some observation has the type.
abbrev pub Seen264 : ℕ → List NalObservation → Type 0
Seen264 t [] = ⊥
Seen264 t (o ∷ os) = (o.h264_type ≡ t) ⊎ Seen264 t os

abbrev pub Seen265 : ℕ → List NalObservation → Type 0
Seen265 t [] = ⊥
Seen265 t (o ∷ os) = (o.h265_type ≡ t) ⊎ Seen265 t os

has_h264_iff : (t : ℕ) (os : List NalObservation) → (has_h264 t os ≡ true) ↔ Seen264 t os
has_h264_iff t [] = (λ h. cc, λ h. absurd h)
has_h264_iff t (o ∷ os) =
    (λ h. ground (arith, (has_h264_iff t os).0), λ h. ground (arith, (has_h264_iff t os).1))

has_h265_iff : (t : ℕ) (os : List NalObservation) → (has_h265 t os ≡ true) ↔ Seen265 t os
has_h265_iff t [] = (λ h. cc, λ h. absurd h)
has_h265_iff t (o ∷ os) =
    (λ h. ground (arith, (has_h265_iff t os).0), λ h. ground (arith, (has_h265_iff t os).1))

-- The parameter sets of the two codecs.
abbrev pub Parameters264 : List NalObservation → Type 0
Parameters264 os = Seen264 7 os × Seen264 8 os

abbrev pub Parameters265 : List NalObservation → Type 0
Parameters265 os = Seen265 32 os × Seen265 33 os × Seen265 34 os

tests264 : (os : List NalObservation) → ((has_h264 7 os && has_h264 8 os) ≡ true) ↔ Parameters264 os
tests264 os = (
  λ h. ((has_h264_iff 7 os).0 (ground arith), (has_h264_iff 8 os).0 (ground arith)),
  λ h. ground (arith, (has_h264_iff 7 os).1 h.0, (has_h264_iff 8 os).1 h.1),
)

tests265 :
    (os : List NalObservation)
    → ((has_h265 32 os && (has_h265 33 os && has_h265 34 os)) ≡ true) ↔ Parameters265 os
tests265 os = (
  λ h. (
    (has_h265_iff 32 os).0 (ground arith),
    (has_h265_iff 33 os).0 (ground arith),
    (has_h265_iff 34 os).0 (ground arith),
  ),
  λ h.
      ground
        (arith, (has_h265_iff 32 os).1 h.0, (has_h265_iff 33 os).1 h.1, (has_h265_iff 34 os).1 h.2),
)

-- The codec is one whose parameter sets are complete while the other's are not; there is a
-- warning, and no confidence and no evidence, exactly where no codec is named.
pub record IsDecided (os : List NalObservation) (r : ValidationResult) : Type 0 where
  pub as_h264 : (r.codec ≡ some h264) ↔ (Parameters264 os × ¬ Parameters265 os)
  pub as_h265 : (r.codec ≡ some h265) ↔ (Parameters265 os × ¬ Parameters264 os)
  pub unsure : (r.codec ≡ none) ↔ (r.confidence ≡ 0)
  pub warned : (r.codec ≡ none) ↔ (r.evidence ≡ [])
  pub silent : (r.warnings ≡ []) ↔ ¬ (r.codec ≡ none)
  pub observations : r.observations ≡ os

decide-IsDecided : (os : List NalObservation) (n : ℕ) → IsDecided os (decide os n)
unfolding decide
decide-IsDecided os n = elim (Bool-cases (has_h264 7 os && has_h264 8 os)) [
  | inl a ↦ elim (Bool-cases (has_h265 32 os && (has_h265 33 os && has_h265 34 os))) [
    | inl b ↦ record {
      as_h264 = (λ h. ground arith, λ h. absurd (h.1 ((tests265 os).0 b)));
      as_h265 = (λ h. ground arith, λ h. absurd (h.1 ((tests264 os).0 a)));
      unsure = (λ h. ground arith, λ h. ground arith);
      warned = (λ h. ground arith, λ h. ground arith);
      silent = (λ h. ground arith, λ h. absurd (h (ground arith)));
      observations = ground arith;
    }
    | inr b ↦ record {
      as_h264 = (λ h. ((tests264 os).0 a, λ k. cc (b, (tests265 os).1 k)), λ h. ground arith);
      as_h265 = (λ h. ground arith, λ h. absurd (h.1 ((tests264 os).0 a)));
      unsure = (λ h. ground arith, λ h. ground arith);
      warned = (λ h. ground arith, λ h. ground arith);
      silent = (λ h k. ground arith, λ h. ground arith);
      observations = ground arith;
    }
  ]
  | inr a ↦ elim (Bool-cases (has_h265 32 os && (has_h265 33 os && has_h265 34 os))) [
    | inl b ↦ record {
      as_h264 = (λ h. ground arith, λ h. absurd (h.1 ((tests265 os).0 b)));
      as_h265 = (λ h. ((tests265 os).0 b, λ k. cc (a, (tests264 os).1 k)), λ h. ground arith);
      unsure = (λ h. ground arith, λ h. ground arith);
      warned = (λ h. ground arith, λ h. ground arith);
      silent = (λ h k. ground arith, λ h. ground arith);
      observations = ground arith;
    }
    | inr b ↦ record {
      as_h264 = (λ h. ground arith, λ h. cc (a, (tests264 os).1 h.0));
      as_h265 = (λ h. ground arith, λ h. cc (b, (tests265 os).1 h.0));
      unsure = (λ h. ground arith, λ h. ground arith);
      warned = (λ h. ground arith, λ h. ground arith);
      silent = (λ h. ground arith, λ h. absurd (h (ground arith)));
      observations = ground arith;
    }
  ]
]

bytes_scanned-decide : (os : List NalObservation) (n : ℕ) → (decide os n).bytes_scanned ≡ n
unfolding decide
bytes_scanned-decide os n = ground arith

-- The observations are those of each chunk, in order, at offsets that are not negative.
abbrev pub ObservesAll : List (Bytes × ℤ) → List NalObservation → Type 0
ObservesAll [] os = os ≡ []
ObservesAll ((chunk, negsuc n) ∷ rest) os = ⊥
ObservesAll ((chunk, pos source_offset) ∷ rest) os =
    (first : List NalObservation) × (later : List NalObservation) × (os ≡ first ++ later)
    × Observes chunk source_offset 0 first
    × ObservesAll rest later

-- Some chunk has a negative offset.
abbrev pub HasNegative : List (Bytes × ℤ) → Type 0
HasNegative [] = ⊥
HasNegative ((chunk, negsuc n) ∷ rest) = Unit {0}
HasNegative ((chunk, pos source_offset) ∷ rest) = HasNegative rest

abbrev pub total_length : List (Bytes × ℤ) → ℕ
total_length [] = 0
total_length ((chunk, source_offset) ∷ rest) = length chunk + total_length rest

observe_chunks_lem :
    (chunks : List (Bytes × ℤ)) (before : List NalObservation) (scanned : ℕ)
    → ((¬ HasNegative chunks)
        × ((os : List NalObservation) × (observe_chunks chunks before scanned
              ≡ ok (before ++ os, scanned + total_length chunks))
            × ObservesAll chunks os))
      ⊎ (HasNegative chunks
          × (observe_chunks chunks before scanned
              ≡ raise ErrorKind.value_error (text "Annex-B source offset cannot be negative")))
unfolding observe_chunks
observe_chunks_lem [] before scanned = inl (λ h. h, ([], ground (arith, append-nil before), refl))
observe_chunks_lem ((chunk, negsuc n) ∷ rest) before scanned = inr (tt, refl)
observe_chunks_lem ((chunk, pos source_offset) ∷ rest) before scanned =
    let (first, e, seen) = observe_chunk_lem chunk source_offset in
    elim (observe_chunks_lem rest (before ++ first) (scanned + length chunk)) [
      | inl (none_negative, (later, e', all)) ↦ inl (
        none_negative,
        (
          first ++ later,
          rw e (e' ∙ ground (arith, append_assoc before first later)),
          (first, later, refl, seen, all),
        ),
      )
      | inr (negative, raised) ↦ inr (negative, rw e raised)
    ]

-- On chunks whose offsets are not negative the validator ends without an error. Its result carries
-- the observations of each chunk in order, counts every byte, and names H.264 exactly where SPS and
-- PPS of H.264 were seen and not all of VPS, SPS and PPS of H.265, and H.265 exactly the other
-- way round; it is without confidence and evidence, and has a warning, exactly where it names none.
-- If the offset of some chunk is negative, it raises ValueError.
pub validate_annex_b_chunks_lem :
    (chunks : List (Bytes × ℤ))
    → ((¬ HasNegative chunks)
        × ((r : ValidationResult) × (validate_annex_b_chunks chunks ≡ ok r)
            × ObservesAll chunks r.observations
            × (r.bytes_scanned ≡ total_length chunks)
            × IsDecided r.observations r))
      ⊎ (HasNegative chunks
          × (validate_annex_b_chunks chunks
              ≡ raise ErrorKind.value_error (text "Annex-B source offset cannot be negative")))
unfolding validate_annex_b_chunks
validate_annex_b_chunks_lem chunks = elim (observe_chunks_lem chunks [] 0) [
  | inr (negative, raised) ↦ inr (negative, rw raised refl)
  | inl (none_negative, (os, e, all)) ↦
      (let decided = decide-IsDecided os (total_length chunks) in
        inl (
          none_negative,
          (
            decide os (total_length chunks),
            rw e (ap (λ n. ok (decide os n)) (omega arith)),
            rw decided.observations all,
            bytes_scanned-decide os (total_length chunks),
            subst (λ seen. IsDecided seen (decide os (total_length chunks)))
                (sym decided.observations) decided,
          ),
        ))
]
