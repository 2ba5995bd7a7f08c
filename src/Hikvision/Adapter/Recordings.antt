-- ===== src/Hikvision/Adapter/Recordings.antt =====
-- Which recordings the adapter lists, and what it reports of each.
use sih.Common.{
  ℕ, ◌+◌, ◌-◌, ◌≤◌, ◌<◌, ◌≡◌, ◌⊎◌, inl, inr, refl, sym, ap, ◌∙◌, subst, Bool, true, false, not,
  ◌||◌, Option, none, some, List, [], ◌∷◌, ◌++◌, ltb, ◌==◌, ok, arith, Bool-cases, and_true,
  or_true, or_false, ==→eq, le→ltb-false,
}
use sih.Common.Ensures.{Ensures, Ensures-bind, Ensures-if, returns}
use sih.Common.Text.{is_blank, strip, lstrip, rstrip, is_space}
use sih.Evidence.Readable.{ReadableEvidence}
use sih.Adapter.{
  active, uncertain, PhysicalExtent, checked_extent, RecordingDescriptor, checked_recording,
  ends_early,
}
use sih.Hikvision.Structures.{MasterSector}
use sih.Hikvision.Hikbtree.Entry.{
  DataEntry, hikbtree_sentinel_timestamp, is_video, state, is_partial,
}
use sih.Hikvision.Adapter.{
  timestamp, Timing, timing, is_none, precedes, recording_id_of, enumerate_entry, enumerate_entries,
}

-- What the times that are reported of an entry satisfy.
pub record IsTimed (entry : DataEntry) (t : Timing) : Type 0 where
  pub start_eq : t.start_time ≡ timestamp entry.start_time_raw
  pub ordered : ends_early t.start_time t.end_time ≡ false
  pub bounded : t.confidence ≤ 100
  pub sure :
      ((t.state ≡ active)
        × (t.confidence ≡ 85)
        × (is_partial entry ≡ false)
        × (is_none t.start_time ≡ false)
        × (is_none t.end_time ≡ false))
      ⊎ ((t.state ≡ uncertain) × (t.confidence < 85))

ends_early-precedes : (a b : Option ℕ) → ends_early a b ≡ precedes b a
ends_early-precedes none none = refl
ends_early-precedes none (some y) = refl
ends_early-precedes (some x) none = refl
ends_early-precedes (some x) (some y) = refl

ends_early-missing : (a b : Option ℕ) → (is_none a || is_none b) ≡ true → ends_early a b ≡ false
ends_early-missing none none h = refl
ends_early-missing none (some y) h = refl
ends_early-missing (some x) none h = refl
ends_early-missing (some x) (some y) h = cc

is_none-timestamp :
    (raw : ℕ) → (raw == hikbtree_sentinel_timestamp) ≡ true → is_none (timestamp raw) ≡ true
unfolding timestamp
is_none-timestamp raw h = rw (==→eq raw hikbtree_sentinel_timestamp h)

or_right : (a : Bool) → (a || true) ≡ true
or_right true = refl
or_right false = refl

is_none-partial :
    (entry : DataEntry)
    → is_partial entry ≡ true
    → (is_none (timestamp entry.start_time_raw) || is_none (timestamp entry.end_time_raw)) ≡ true
unfolding is_partial
is_none-partial entry partial =
    let (_, sentinel) = and_true (is_video (state entry)) _ partial in
    elim (or_true _ _ sentinel) [
      | inl h ↦ rw (is_none-timestamp entry.start_time_raw h)
      | inr h ↦
          rw (is_none-timestamp entry.end_time_raw h)
            (or_right (is_none (timestamp entry.start_time_raw)))
    ]

ends_early-none : (a : Option ℕ) → ends_early a none ≡ false
ends_early-none none = refl
ends_early-none (some x) = refl

timing-IsTimed : (entry : DataEntry) → IsTimed entry (timing entry)
unfolding timing
timing-IsTimed entry =
    let start = timestamp entry.start_time_raw in
    let end = timestamp entry.end_time_raw in
    elim (Bool-cases (is_partial entry)) [
      | inl partial ↦ rw partial (record {
        start_eq = refl;
        ordered = ends_early-missing start end (is_none-partial entry partial);
        bounded = omega arith;
        sure = inr (refl, omega arith);
      })
      | inr whole ↦ elim (Bool-cases (is_none start || is_none end)) [
        | inl missing ↦
            rw (whole, missing)
              (record {
                start_eq = refl;
                ordered = ends_early-missing start end missing;
                bounded = omega arith;
                sure = inr (refl, omega arith);
              })
        | inr set ↦ elim (Bool-cases (precedes end start)) [
          | inl early ↦
              rw (whole, set, early)
                (record {
                  start_eq = refl;
                  ordered = ends_early-none start;
                  bounded = omega arith;
                  sure = inr (refl, omega arith);
                })
          | inr fine ↦
              rw (whole, set, fine)
                (record {
                  start_eq = refl;
                  ordered = ends_early-precedes start end ∙ fine;
                  bounded = omega arith;
                  sure = inl (refl, refl, whole, (or_false _ _ set).0, (or_false _ _ set).1);
                })
        ]
      ]
    ]

recording_id_of-given : (offset : ℕ) → is_blank (recording_id_of offset) ≡ false
unfolding is_blank strip lstrip rstrip is_space
recording_id_of-given offset = refl

-- An entry that the adapter lists: it holds video, and its block lies inside the image.
pub record IsListed (source : ReadableEvidence) (master : MasterSector) (entry : DataEntry)
    : Type 0 where
  pub video : is_video (state entry) ≡ true
  pub inside :
      master.filesystem_base_offset + entry.data_offset + master.data_block_size ≤ source.size

-- The recording that is reported of an entry.
pub record IsRecording (master : MasterSector) (entry : DataEntry) (r : RecordingDescriptor)
    : Type 0 where
  pub recording_id : r.recording_id ≡ recording_id_of entry.metadata_offset
  pub channel : r.channel ≡ some entry.channel
  pub extents :
      r.extents
      ≡ record {
        offset = master.filesystem_base_offset + entry.data_offset;
        length = master.data_block_size;
      }
        ∷ []
  pub times : IsTimed entry (record {
    start_time = r.start_time;
    end_time = r.end_time;
    state = r.state;
    confidence = r.confidence;
    warnings = r.warnings;
  })

-- Recordings, one for each entry that is listed, in the order of the entries.
abbrev pub Lists :
    ReadableEvidence → MasterSector → List DataEntry → List RecordingDescriptor → Type 0
Lists source master [] rs = rs ≡ []
Lists source master (entry ∷ entries) rs =
    (IsListed source master entry
      × ((r : RecordingDescriptor) × (rest : List RecordingDescriptor) × (rs ≡ r ∷ rest)
          × IsRecording master entry r
          × Lists source master entries rest))
    ⊎ ((¬ IsListed source master entry) × Lists source master entries rs)

-- What one round of the loop appends.
abbrev Here : ReadableEvidence → MasterSector → DataEntry → List RecordingDescriptor → Type 0
Here source master entry rs =
    (IsListed source master entry
      × ((r : RecordingDescriptor) × (rs ≡ r ∷ []) × IsRecording master entry r))
    ⊎ ((¬ IsListed source master entry) × (rs ≡ []))

abbrev extent_of : MasterSector → DataEntry → PhysicalExtent
extent_of master entry = record {
  offset = master.filesystem_base_offset + entry.data_offset;
  length = master.data_block_size;
}

abbrev recording_of : MasterSector → DataEntry → RecordingDescriptor
recording_of master entry =
    let t = timing entry in
    record {
      recording_id = recording_id_of entry.metadata_offset;
      channel = some entry.channel;
      start_time = t.start_time;
      end_time = t.end_time;
      timestamp_source = some "hikbtree-unix-seconds-timezone-unverified";
      state = t.state;
      extents = extent_of master entry ∷ [];
      confidence = t.confidence;
      warnings = t.warnings;
    }

checked_extent-positive : (e : PhysicalExtent) → 0 < e.length → checked_extent e ≡ ok e
unfolding checked_extent
checked_extent-positive e positive = ground arith

checked_recording_sound :
    (r : RecordingDescriptor) (e : PhysicalExtent)
    → is_blank r.recording_id ≡ false
    → r.confidence ≤ 100
    → ends_early r.start_time r.end_time ≡ false
    → r.extents ≡ e ∷ []
    → checked_recording r ≡ ok r
unfolding checked_recording
checked_recording_sound r e given bounded ordered extents =
    rw (given, le→ltb-false 100 r.confidence bounded, ordered, extents)

abbrev pub Never : {K : Type 0} → K → Type 0
Never k = ⊥

module _ (source : ReadableEvidence) (master : MasterSector)
    (positive : 0 < master.data_block_size) where
  enumerate_entry-Ensures :
      (entry : DataEntry)
      → Ensures Never (Here source master entry) (enumerate_entry source master entry)
  unfolding enumerate_entry
  enumerate_entry-Ensures entry =
      Ensures-if (not (is_video (state entry))) _ _
        (λ other. returns [] (inr (λ l. ground (arith, l.video), refl)))
        λ video.
          Ensures-if
            (ltb source.size (master.filesystem_base_offset + entry.data_offset)
              || ltb (source.size - (master.filesystem_base_offset + entry.data_offset))
                  master.data_block_size)
            _ _ (λ outside. returns [] (inr (λ l. ground (arith, l.inside), refl)))
            λ inside.
              let t = timing-IsTimed entry in
              rw
                (
                  checked_extent-positive (extent_of master entry) positive,
                  checked_recording_sound (recording_of master entry) (extent_of master entry)
                      (recording_id_of-given entry.metadata_offset) t.bounded t.ordered refl,
                )
                (returns _ (
                  inl (
                    record { video = ground arith; inside = ground arith },
                    (
                      recording_of master entry,
                      refl,
                      record { recording_id = refl; channel = refl; extents = refl; times = t },
                    ),
                  )))

  -- With a positive block size the enumeration of parsed entries raises nothing. It lists, in
  -- order, exactly the entries that hold video and whose block lies inside the image; each
  -- recording has that block as its only extent, its times are in order, and it is active with
  -- confidence 0.85 only if the entry is complete and both its times are set, and otherwise
  -- uncertain with less.
  pub enumerate_entries-Ensures :
      (entries : List DataEntry)
      → Ensures Never (Lists source master entries) (enumerate_entries source master entries)
  unfolding enumerate_entries
  enumerate_entries-Ensures [] = returns [] refl
  enumerate_entries-Ensures (entry ∷ entries) =
      Ensures-bind (enumerate_entry source master entry) _ (enumerate_entry-Ensures entry)
        λ here at.
          Ensures-bind (enumerate_entries source master entries) _
            (enumerate_entries-Ensures entries)
            λ later listed. returns _ (elim at [
              | inl (l, (r, is_r, known)) ↦
                  inl (l, (r, later, ap (λ xs. xs ++ later) is_r, known, listed))
              | inr (not_listed, nothing) ↦ inr (
                not_listed,
                subst (λ xs. Lists source master entries (xs ++ later)) (sym nothing) listed,
              )
            ])
