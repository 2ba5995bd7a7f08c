-- ===== src/Hikvision/Hikbtree/PageData/Scores.antt =====
-- The choice of a page's layout: the longer run of well-formed entries, and nothing on a tie.
use sih.Common.{
  ℕ, zero, suc, ◌+◌, ◌*◌, ◌≤◌, ◌<◌, ◌≡◌, ap, sym, ◌∙◌, subst, Bool, true, false, ◌&&◌, ◌⊎◌, inl,
  inr, none, some, arith, tests, and_true, or_true, Bool-cases, length, slice, take, slice-slice,
  take-slice, ok, ltb, leb, if◌then◌else◌,
}
use sih.Common.Bytes.{Bytes, bytes_eq, bytes_eq→eq}
use sih.Hikvision.Hikbtree.Entry.{
  hikbtree_entry_marker, hikbtree_video_status, hikbtree_empty_status,
}
use sih.Hikvision.Hikbtree.PageData.{
  is_recognized, count_recognized, score_offsets, best_score, winners, select_page_entry_offset,
}

-- A whole entry stands at `o`, with its marker and one of the two known status values.
pub record IsEntryAt (page_data : Bytes) (o : ℕ) : Type 0 where
  pub fits : o + 48 ≤ length page_data
  pub marked : slice page_data o 8 ≡ hikbtree_entry_marker
  pub known :
      (slice page_data (o + 8) 8 ≡ hikbtree_video_status)
      ⊎ (slice page_data (o + 8) 8 ≡ hikbtree_empty_status)

-- Exactly `n` such entries follow one another from `o`.
pub record IsRun (page_data : Bytes) (o n : ℕ) : Type 0 where
  pub entries : (k : ℕ) → k < n → IsEntryAt page_data (o + k * 48)
  pub stops : ¬ IsEntryAt page_data (o + n * 48)

is_recognized→IsEntryAt :
    (page_data : Bytes) (o : ℕ)
    → o + 48 ≤ length page_data
    → is_recognized (slice page_data o 48) ≡ true
    → IsEntryAt page_data o
unfolding is_recognized
is_recognized→IsEntryAt page_data o fits h =
    let (marked, known) =
      and_true (bytes_eq (take 8 (slice page_data o 48)) hikbtree_entry_marker) _ h in
    let e8 = slice-slice page_data o 48 8 8 (omega arith) in
    record {
      fits = fits;
      marked = sym (take-slice page_data o 48 8 (omega arith)) ∙ bytes_eq→eq _ _ marked;
      known =
          elim (or_true (bytes_eq (slice (slice page_data o 48) 8 8) hikbtree_video_status) _
            known) [
              | inl v ↦ inl (sym e8 ∙ bytes_eq→eq _ _ v)
              | inr v ↦ inr (sym e8 ∙ bytes_eq→eq _ _ v)
            ];
    }

IsEntryAt→is_recognized :
    (page_data : Bytes) (o : ℕ)
    → IsEntryAt page_data o
    → is_recognized (slice page_data o 48) ≡ true
unfolding is_recognized
IsEntryAt→is_recognized page_data o h =
    rw
      (
        take-slice page_data o 48 8 (omega arith),
        slice-slice page_data o 48 8 8 (omega arith),
        h.marked,
      )
      (elim h.known [ inl e ↦ rw e | inr e ↦ rw e ])

IsRun-suc :
    (page_data : Bytes) (o n : ℕ)
    → IsEntryAt page_data o
    → IsRun page_data (o + 48) n
    → IsRun page_data o (suc n)
IsRun-suc page_data o n here later = record {
  entries = at;
  stops = λ h. later.stops (subst (IsEntryAt page_data) (omega arith) h);
}
  where
    at : (k : ℕ) → k < suc n → IsEntryAt page_data (o + k * 48)
    at zero h = subst (IsEntryAt page_data) (omega arith) here
    at (suc k) h = subst (IsEntryAt page_data) (omega arith) (later.entries k (omega arith))

abbrev continues : Bytes → ℕ → Bool
continues page_data position =
    leb (position + 48) (length page_data) && is_recognized (slice page_data position 48)

count_recognized_lem :
    (fuel : ℕ) (page_data : Bytes) (position recognized : ℕ)
    → 0 < fuel
    → length page_data < fuel + position
    → (n : ℕ) × (count_recognized fuel page_data position recognized ≡ ok (recognized + n))
      × IsRun page_data position n
unfolding count_recognized
count_recognized_lem zero page_data position recognized started enough = elim started [ ]
count_recognized_lem (suc fuel) page_data position recognized started enough =
    elim (Bool-cases (continues page_data position)) [
      | inl more ↦
          let (fits, known) = and_true (leb (position + 48) (length page_data)) _ more in
          let (n, e, run) =
            count_recognized_lem fuel page_data (position + 48) (recognized + 1) (omega tests)
              (omega tests) in
          (
            suc n,
            rw (more, count_recognized) (e ∙ ap ok (omega arith)),
            IsRun-suc page_data position n
                (is_recognized→IsEntryAt page_data position (omega tests) known) run,
          )
      | inr done ↦ (
        0,
        rw (done, count_recognized) (ap ok (omega arith)),
        record {
          entries = λ k h. absurd (omega arith);
          stops =
              λ h. stopped page_data position done (subst (IsEntryAt page_data) (omega arith) h);
        },
      )
    ]
  where
    stopped : (d : Bytes) (o : ℕ) → continues d o ≡ false → ¬ IsEntryAt d o
    stopped d o e h = ground (arith, IsEntryAt→is_recognized d o h, h.fits)

-- `_select_page_entry_offset` is total on every page. It counts the runs of well-formed entries
-- from 80 and from 96, and returns the offset with the longer run; on a tie, also of two empty
-- runs, it returns nothing.
pub select_page_entry_offset_lem :
    (page_data : Bytes)
    → (n80 : ℕ) × (n96 : ℕ) × IsRun page_data 80 n80
      × IsRun page_data 96 n96
      × (select_page_entry_offset page_data
          ≡ ok (if ltb n96 n80 then some 80 else if ltb n80 n96 then some 96 else none))
unfolding select_page_entry_offset score_offsets best_score winners
select_page_entry_offset_lem page_data =
    let (n80, e80, run80) =
      count_recognized_lem (suc (length page_data)) page_data 80 0 (omega arith) (omega arith) in
    let (n96, e96, run96) =
      count_recognized_lem (suc (length page_data)) page_data 96 0 (omega arith) (omega arith) in
    (n80, n96, run80, run96, ground (arith, e80, e96))
