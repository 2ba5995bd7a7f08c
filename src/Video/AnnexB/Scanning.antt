-- ===== src/Video/AnnexB/Scanning.antt =====
-- The start-code scanner observes exactly the NAL headers of a chunk.
use sih.Common.{
  ℕ, ◌-◌, length-le_of_none, zero, suc, ◌+◌, ◌/◌, ◌%◌, ◌≤◌, ◌<◌, ◌≡◌, ◌≢◌, ◌⊎◌, inl, inr, refl, ap,
  sym, ◌∙◌, subst, true, false, none, some, List, [], ◌∷◌, ◌++◌, length, slice, get_elem?,
  get_elem?-slice, ltb, ◌==◌, ok, arith, tests, Bool-cases, Option-cases, dec_lt, All,
}
use mathlib.Core.List.{append-nil, append_assoc}
use sih.Common.Bytes.{Bytes, bytes_eq, bytes_eq→eq}
use sih.Video.AnnexB.{
  NalObservation, long_start_code, start_code, start_code_length, observation, observe_from,
  observe_chunk,
}

-- The observation is of a header behind a start code of the chunk, with the byte's two types.
pub record IsHeaderOf (chunk : Bytes) (source_offset : ℕ) (o : NalObservation) : Type 0 where
  pub position : ℕ
  pub count : ℕ
  pub start_code :
      ((count ≡ 4) × (slice chunk position 4 ≡ long_start_code))
      ⊎ ((count ≡ 3) × (slice chunk position 3 ≡ start_code))
  pub start_code_offset : o.start_code_offset ≡ source_offset + position
  pub header_offset : o.header_offset ≡ source_offset + (position + count)
  pub header_byte : get_elem? chunk (position + count) ≡ some o.header_byte
  pub h264_type : o.h264_type ≡ o.header_byte % 32
  pub h265_type : o.h265_type ≡ o.header_byte / 2 % 64

-- Some observation has its header at the source offset `at`.
abbrev pub HeaderAt : ℕ → List NalObservation → Type 0
HeaderAt at [] = ⊥
HeaderAt at (o ∷ os) = (o.header_offset ≡ at) ⊎ HeaderAt at os

-- A start code at `q` with a header byte inside the chunk.
pub record IsStart (chunk : Bytes) (q : ℕ) : Type 0 where
  pub code : slice chunk q 3 ≡ start_code
  pub inside : q + 3 < length chunk

-- From `position` on, every start code is observed, or begins on an observed header byte.
pub record Observes (chunk : Bytes) (source_offset position : ℕ) (os : List NalObservation)
    : Type 0 where
  pub sound : All (IsHeaderOf chunk source_offset) os
  pub complete :
      (q : ℕ)
      → position ≤ q
      → IsStart chunk q
      → HeaderAt (source_offset + (q + 3)) os ⊎ HeaderAt (source_offset + q) os

-- The bytes of a pattern that stands at `o`.
bytes_at :
    (chunk pattern : Bytes) (o n i : ℕ)
    → slice chunk o n ≡ pattern
    → i < n
    → get_elem? chunk (o + i) ≡ get_elem? pattern i
bytes_at chunk pattern o n i h lt =
    sym (get_elem?-slice chunk o n i lt) ∙ ap (λ bs. get_elem? bs i) h

-- The start code that the scanner sees at a position, with its length.
IsCode : Bytes → ℕ → ℕ → Type 0
IsCode chunk position count =
    ((count ≡ 4) × (slice chunk position 4 ≡ long_start_code))
    ⊎ ((count ≡ 3) × (slice chunk position 3 ≡ start_code))

start_code_length_cases :
    (chunk : Bytes) (position : ℕ)
    → IsCode chunk position (start_code_length chunk position)
      ⊎ ((start_code_length chunk position ≡ 0) × (slice chunk position 3 ≢ start_code))
unfolding start_code_length IsCode
start_code_length_cases chunk position =
    elim (Bool-cases (bytes_eq (slice chunk position 4) long_start_code)) [
      | inl long ↦ inl (inl (rw (long, start_code_length), bytes_eq→eq _ _ long))
      | inr short ↦ elim (Bool-cases (bytes_eq (slice chunk position 3) start_code)) [
        | inl e ↦ inl (inr (rw (short, e, start_code_length), bytes_eq→eq _ _ e))
        | inr e ↦
            inr (rw (short, e, start_code_length), λ h. cc (e, ap (λ bs. bytes_eq bs start_code) h))
      ]
    ]

-- A start code that begins inside another one ends with it.
overlap :
    (chunk : Bytes) (position count k : ℕ)
    → IsCode chunk position count
    → k < count
    → IsStart chunk (position + k)
    → k + 3 ≡ count
unfolding IsCode
overlap chunk position count k (inl (e, long)) lt s = ground (
  arith,
  bytes_at chunk long_start_code position 4 2 long (omega arith),
  bytes_at chunk long_start_code position 4 3 long (omega arith),
  bytes_at chunk start_code (position + k) 3 0 s.code (omega arith),
  bytes_at chunk start_code (position + k) 3 1 s.code (omega arith),
  bytes_at chunk start_code (position + k) 3 2 s.code (omega arith),
)
overlap chunk position count k (inr (e, short)) lt s = ground (
  arith,
  bytes_at chunk start_code position 3 1 short (omega arith),
  bytes_at chunk start_code position 3 2 short (omega arith),
  bytes_at chunk start_code (position + k) 3 0 s.code (omega arith),
  bytes_at chunk start_code (position + k) 3 1 s.code (omega arith),
)

-- The same with the place of the second start code as a variable.
overlap_at :
    (chunk : Bytes) (position count q : ℕ)
    → IsCode chunk position count
    → position ≤ q
    → q < position + count
    → IsStart chunk q
    → q + 3 ≡ position + count
overlap_at chunk position count q code from to s = omega (
  arith,
  overlap chunk position count (q - position) code (omega arith)
      (subst (IsStart chunk) (omega arith) s),
)

-- A start code of three or four bytes.
IsCode-bounds :
    (chunk : Bytes) (position count : ℕ) → IsCode chunk position count → (3 ≤ count) × (count ≤ 4)
unfolding IsCode
IsCode-bounds chunk position count h = (omega arith, omega arith)

module _ (chunk : Bytes) (source_offset : ℕ) where
  -- Where the scanner saw no start code, it goes on one byte further.
  Observes-skip :
      (position : ℕ) (os : List NalObservation)
      → slice chunk position 3 ≢ start_code
      → Observes chunk source_offset (position + 1) os
      → Observes chunk source_offset position os
  Observes-skip position os no_code h = record {
    sound = h.sound;
    complete = λ q from s. elim (dec_lt position q) [
      | yes later ↦ h.complete q (omega arith) s
      | no same ↦ absurd (no_code (subst (λ k. slice chunk k 3 ≡ start_code) (omega arith) s.code))
    ];
  }

  Observes-cons :
      (position count header_byte : ℕ) (os : List NalObservation)
      → IsCode chunk position count
      → get_elem? chunk (position + count) ≡ some header_byte
      → Observes chunk source_offset (position + count + 1) os
      → Observes chunk source_offset position
          (observation source_offset position (position + count) header_byte ∷ os)
  unfolding observation IsCode
  Observes-cons position count header_byte os code e h = record {
    sound = (
      record {
        position = position;
        count = count;
        start_code = code;
        start_code_offset = refl;
        header_offset = refl;
        header_byte = e;
        h264_type = refl;
        h265_type = refl;
      },
      h.sound,
    );
    complete = λ q from s. elim (dec_lt q (position + count)) [
      | yes inside ↦ inl (inl (omega (arith, overlap_at chunk position count q code from inside s)))
      | no after ↦ elim (dec_lt (position + count) q) [
        | yes later ↦ elim (h.complete q (omega arith) s) [
          | inl at ↦ inl (inr at)
          | inr at ↦ inr (inr at)
        ]
        | no same ↦ inr (inl (omega arith))
      ]
    ];
  }

  Observes-none :
      (position : ℕ)
      → ((q : ℕ) → position ≤ q → ¬ IsStart chunk q)
      → Observes chunk source_offset position []
  Observes-none position h = record { sound = tt; complete = λ q from s. absurd (h q from s) }

  -- The scan of `observe_from` has observed all from `position` on.
  abbrev IsScanned : ℕ → ℕ → List NalObservation → Type 0
  IsScanned fuel position before =
      (os : List NalObservation) × (observe_from fuel chunk source_offset position before
        ≡ ok (before ++ os))
      × Observes chunk source_offset position os

  -- A start code at the end of the chunk, with no header byte behind it.
  no-IsStart :
      (position count : ℕ)
      → IsCode chunk position count
      → get_elem? chunk (position + count) ≡ none
      → position + 3 < length chunk
      → (q : ℕ) → position ≤ q
      → ¬ IsStart chunk q
  no-IsStart position count code e more q from s = omega (
    arith,
    IsCode-bounds chunk position count code,
    length-le_of_none chunk (position + count) e,
    overlap_at chunk position count q code from,
    s,
    s.inside,
  )

  at_code :
      (fuel position : ℕ) (before : List NalObservation)
      → ltb (position + 3) (length chunk) ≡ true
      → IsCode chunk position (start_code_length chunk position)
      → ((before' : List NalObservation)
          → IsScanned fuel (position + start_code_length chunk position + 1) before')
      → IsScanned (suc fuel) position before
  unfolding observe_from
  at_code fuel position before more code later =
      let count = start_code_length chunk position in
      let some_length : (count == 0) ≡ false =
        ground (arith, IsCode-bounds chunk position count code) in
      elim (Option-cases (get_elem? chunk (position + count))) [
        | inl e ↦ (
          [],
          rw (more, observe_from, some_length, e) (ap ok (sym (append-nil before))),
          Observes-none position (no-IsStart position count code e (omega tests)),
        )
        | inr (b, e) ↦
            let o = observation source_offset position (position + count) b in
            let (os, scanned, h) = later (before ++ o ∷ []) in
            (
              o ∷ os,
              rw (more, observe_from, some_length, e)
                  (scanned ∙ ap ok (append_assoc before (o ∷ []) os)),
              Observes-cons position count b os code e h,
            )
      ]

  observe_from_lem :
      (fuel position : ℕ) (before : List NalObservation)
      → 0 < fuel
      → length chunk < fuel + position
      → (os : List NalObservation) × (observe_from fuel chunk source_offset position before
          ≡ ok (before ++ os))
        × Observes chunk source_offset position os
  unfolding observe_from
  observe_from_lem zero position before started enough = elim started [ ]
  observe_from_lem (suc fuel) position before started enough =
      elim (Bool-cases (ltb (position + 3) (length chunk))) [
        | inr done ↦ (
          [],
          rw (done, observe_from) (ap ok (sym (append-nil before))),
          Observes-none position (λ q from s. omega (tests, s.inside)),
        )
        | inl more ↦ elim (start_code_length_cases chunk position) [
          | inr (no_length, no_code) ↦
              let (os, e, h) =
                observe_from_lem fuel (position + 1) before (omega tests) (omega arith) in
              (os, rw (more, observe_from, no_length) e, Observes-skip position os no_code h)
          | inl code ↦ at_code fuel position before more code (λ before'.
              observe_from_lem fuel (position + start_code_length chunk position + 1) before'
                (omega tests) (omega arith))
        ]
      ]

-- `_observe_chunk` ends on every chunk. Each observation is of a real header: a start code of
-- three or four bytes, the byte behind it and its two types, at source offsets that name them.
-- And no header is missed: every start code with a byte behind it is observed, but for one that
-- begins on the header byte of an observed one.
pub observe_chunk_lem :
    (chunk : Bytes) (source_offset : ℕ)
    → (os : List NalObservation) × (observe_chunk chunk source_offset ≡ ok os)
      × Observes chunk source_offset 0 os
unfolding observe_chunk
observe_chunk_lem chunk source_offset =
    observe_from_lem chunk source_offset (suc (length chunk)) 0 [] (omega arith) (omega arith)
