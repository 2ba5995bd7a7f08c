-- ===== src/Hikvision/Adapter/Scan.antt =====
-- The chunked search for the filesystem's signature finds its first occurrence.
use sih.Common.{
  ℕ, zero, suc, ◌+◌, ◌-◌, ◌≤◌, ◌<◌, ◌≡◌, ◌≢◌, inl, inr, sym, ap, ◌∙◌, true, Option, none, some,
  ◌++◌, min, length, drop, slice, ltb, arith, Bool-cases, Option-cases, ok, ◌>>=◌, slice-append,
  drop-slice, slice-slice, length-slice_in, length-slice,
}
use sih.Common.Bytes.{Bytes, find}
use sih.Evidence.Readable.{ReadableEvidence, IsImage}
use sih.Hikvision.Structures.{hikvision_signature}
use sih.Hikvision.Adapter.{scan_from, find_signature}
use sih.Hikvision.Adapter.Find.{IsAbsent, find-some, find-none}

-- What a search of the first `scan` bytes has to return: the first occurrence, if there is one.
abbrev pub Scanned : Bytes → ℕ → Option ℕ → Type 0
Scanned content scan none = (j : ℕ) → j + 18 ≤ scan → slice content j 18 ≢ hikvision_signature
Scanned content scan (some k) =
    (k + 18 ≤ scan)
    × (slice content k 18 ≡ hikvision_signature)
    × IsAbsent hikvision_signature content k

module _ {source : ReadableEvidence} {content : Bytes} {limit : ℕ}
    (image : IsImage source content limit) (chunk_size scan : ℕ) (some_chunk : 0 < chunk_size)
    (fits : chunk_size ≤ limit) (inside : scan ≤ length content) where
  -- The bytes that one round searches: what was kept of the last chunk, and the next one.
  abbrev window : ℕ → Bytes
  window position = slice content (position - 17) (min 17 position)

  abbrev width : ℕ → ℕ
  width position = min 17 position + min chunk_size (scan - position)

  abbrev searched : ℕ → Bytes
  searched position = slice content (position - 17) (width position)

  -- Where the window holds the signature, so does the image, and the other way round.
  slice-searched :
      (position j : ℕ)
      → position ≤ scan
      → j + 18 ≤ width position
      → slice (searched position) j 18 ≡ slice content (position - 17 + j) 18
  slice-searched position j before room =
      slice-slice content (position - 17) (width position) j 18 room

  -- No signature starts before the next window, if none does before this one or in it.
  IsAbsent-next :
      (position i : ℕ)
      → position ≤ scan
      → i + 17 ≤ width position
      → IsAbsent hikvision_signature content (position - 17)
      → IsAbsent hikvision_signature (searched position) i
      → IsAbsent hikvision_signature content (position - 17 + i)
  IsAbsent-next position i before room old new j lt = elim (Bool-cases (ltb j (position - 17))) [
    | inl early ↦ old j (ground arith)
    | inr late ↦ λ e. new (j - (position - 17)) (ground arith) (
        slice-searched position (j - (position - 17)) before (ground arith)
        ∙ ap (λ k. slice content k 18) (ground arith)
        ∙ e)
  ]

  length-searched : (position : ℕ) → position ≤ scan → length (searched position) ≡ width position
  length-searched position before =
      length-slice_in content (position - 17) (width position) (omega arith)

  searched-append :
      (position : ℕ)
      → position ≤ scan
      → window position ++ slice content position (min chunk_size (scan - position))
        ≡ searched position
  searched-append position before =
      ap (λ o. window position ++ slice content o (min chunk_size (scan - position))) (omega arith)
      ∙ slice-append content (position - 17) (min 17 position) (min chunk_size (scan - position))

  -- What is kept of a round that found nothing.
  window-next :
      (position : ℕ)
      → position < scan
      → drop (length (searched position) - min 17 (length (searched position))) (searched position)
        ≡ window (position + min chunk_size (scan - position))
  window-next position before =
      let len = length-searched position (omega arith) in
      drop-slice content (position - 17) (width position)
        (length (searched position) - min 17 (length (searched position)))
      ∙ (let first : position
                - 17
                + (length (searched position) - min 17 (length (searched position)))
              ≡ position + min chunk_size (scan - position) - 17 =
            omega (arith, len) in
          let count : width position
                - (length (searched position) - min 17 (length (searched position)))
              ≡ min 17 (position + min chunk_size (scan - position)) =
            omega (arith, len) in
          rw (first, count))

  read_chunk :
      (position : ℕ)
      → position ≤ scan
      → source.read_at position (min chunk_size (scan - position))
        ≡ ok (slice content position (min chunk_size (scan - position)))
  read_chunk position before =
      image.read_eq position (min chunk_size (scan - position)) (omega arith) (omega arith)

  length-window : (position : ℕ) → position ≤ scan → length (window position) ≡ min 17 position
  length-window position before =
      length-slice_in content (position - 17) (min 17 position) (omega arith)

  room_of :
      (position i : ℕ)
      → position ≤ scan
      → slice (searched position) i 18 ≡ hikvision_signature
      → i + 18 ≤ width position
  room_of position i before here = omega (
    arith,
    length-slice (searched position) i 18,
    ap length here,
    length-searched position before,
  )

  IsAbsent-after :
      (position : ℕ)
      → find hikvision_signature (searched position) ≡ none
      → position < scan
      → IsAbsent hikvision_signature content (position - 17)
      → IsAbsent hikvision_signature content (position + min chunk_size (scan - position) - 17)
  IsAbsent-after position nothing before absent j lt = elim (Bool-cases (ltb (width position) 17)) [
    | inl short ↦ ground arith
    | inr long ↦
        IsAbsent-next position (width position - 17) (omega arith) (ground arith) absent
          (λ k _. find-none hikvision_signature (searched position) nothing (omega arith) k) j
          (ground arith)
  ]

  scan_from-next :
      (fuel position : ℕ)
      → position ≤ scan
      → ltb position scan ≡ true
      → find hikvision_signature (searched position) ≡ none
      → scan_from (suc fuel) source chunk_size scan (window position) position
        ≡ scan_from fuel source chunk_size scan
            (window (position + min chunk_size (scan - position)))
            (position + min chunk_size (scan - position))
  unfolding scan_from
  scan_from-next fuel position before more nothing =
      rw
        (
          scan_from,
          more,
          read_chunk position before,
          ◌>>=◌,
          searched-append position before,
          nothing,
        )
        (rw (searched-append position before, window-next position (ground arith)))

  scan_from-found :
      (fuel position i : ℕ)
      → position ≤ scan
      → ltb position scan ≡ true
      → find hikvision_signature (searched position) ≡ some i
      → scan_from (suc fuel) source chunk_size scan (window position) position
        ≡ ok (some (position - 17 + i))
  unfolding scan_from
  scan_from-found fuel position i before more found =
      rw
        (scan_from, more, read_chunk position before, ◌>>=◌, searched-append position before, found)
        (let e : position - length (window position) + i ≡ position - 17 + i =
            omega (arith, length-window position before) in
          rw e)

  abbrev Search : ℕ → ℕ → Type 0
  Search fuel position =
      (r : Option ℕ) × (scan_from fuel source chunk_size scan (window position) position ≡ ok r)
      × Scanned content scan r

  scan_from_lem :
      (fuel position : ℕ)
      → position ≤ scan
      → scan - position < fuel
      → IsAbsent hikvision_signature content (position - 17)
      → Search fuel position
  unfolding scan_from
  scan_from_lem zero position before enough absent = absurd (omega arith)
  scan_from_lem (suc fuel) position before enough absent = elim (Bool-cases (ltb position scan)) [
    | inr done ↦ (none, rw (scan_from, done), λ j room. absent j (ground arith))
    | inl more ↦ elim (Option-cases (find hikvision_signature (searched position))) [
      | inl nothing ↦
          let (r, ran, right) =
            scan_from_lem fuel (position + min chunk_size (scan - position)) (omega arith)
              (ground arith) (IsAbsent-after position nothing (ground arith) absent) in
          (r, scan_from-next fuel position before more nothing ∙ ran, right)
      | inr (i, found) ↦
          let (here, first) = find-some hikvision_signature (searched position) i found in
          let room : i + 18 ≤ width position = room_of position i before here in
          (
            some (position - 17 + i),
            scan_from-found fuel position i before more found,
            (
              omega (arith, room),
              sym (slice-searched position i before room) ∙ here,
              IsAbsent-next position i before (omega (arith, room)) absent first,
            ),
          )
    ]
  ]

-- `_find_signature` ends on every image, without an error, whatever the chunk size: it returns the
-- offset of the first occurrence of the signature in the scanned bytes, also of one that two
-- chunks share, and nothing only where they hold none.
pub find_signature_lem :
    (source : ReadableEvidence) (content : Bytes) (limit scan_limit scan_chunk_size : ℕ)
    → IsImage source content limit
    → 0 < scan_chunk_size
    → scan_chunk_size ≤ limit
    → (r : Option ℕ) × (find_signature scan_limit scan_chunk_size source ≡ ok r)
      × Scanned content (min source.size scan_limit) r
unfolding find_signature
find_signature_lem source content limit scan_limit scan_chunk_size image some_chunk fits =
    scan_from_lem image scan_chunk_size (min source.size scan_limit) some_chunk fits
      (omega (arith, image.size_eq)) (suc (min source.size scan_limit)) 0 (omega arith)
      (omega arith) (λ j lt. absurd (omega arith))
