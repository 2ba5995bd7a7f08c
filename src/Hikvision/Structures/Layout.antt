-- ===== src/Hikvision/Structures/Layout.antt =====
-- What an empty list of layout warnings says of a master sector.
use sih.Common.{
  ℕ, ◌+◌, ◌-◌, ◌*◌, ◌%◌, ◌≤◌, ◌<◌, ◌≡◌, ◌↔◌, refl, List, [], ◌∷◌, ◌++◌, String, arith, Message, leb,
  le→ltb-false,
}
use sih.Hikvision.Structures.{
  MasterSector, validate_region, capacity_warnings, block_warnings, span_warnings, validate,
  warn_if,
}

abbrev pub IsInside : ℕ → ℕ → ℕ → Type 0
IsInside offset size filesystem_bytes = (0 < size) × (offset + size ≤ filesystem_bytes)

-- The layout that the master sector declares fits the evidence image of `source_size` bytes.
pub record IsLaidOut (m : MasterSector) (source_size : ℕ) : Type 0 where
  pub base : m.filesystem_base_offset ≤ source_size
  pub capacity : (0 < m.hdd_capacity) × (m.hdd_capacity ≤ source_size)
  pub video_offset : m.filesystem_base_offset + m.video_data_offset < source_size
  pub block_size : (0 < m.data_block_size) × (m.data_block_size ≤ 1024 * 1024 * 1024)
  pub sector_aligned : m.data_block_size % 512 ≡ 0
  pub blocks :
      (0 < m.total_data_blocks)
      × (m.filesystem_base_offset + m.video_data_offset + m.data_block_size * m.total_data_blocks
          ≤ source_size)
  pub system_log :
      IsInside m.system_log_offset m.system_log_size (source_size - m.filesystem_base_offset)
  pub primary_tree :
      IsInside m.primary_tree_offset m.primary_tree_size (source_size - m.filesystem_base_offset)
  pub secondary_tree :
      IsInside m.secondary_tree_offset m.secondary_tree_size
        (source_size - m.filesystem_base_offset)

append_eq_nil : (xs ys : List Message) → xs ++ ys ≡ [] → (xs ≡ []) × (ys ≡ [])
append_eq_nil [] ys h = (refl, h)
append_eq_nil (x ∷ xs) ys h = cc

validate_region_iff :
    (label : String) (offset size filesystem_bytes : ℕ)
    → (validate_region label offset size filesystem_bytes ≡ [])
      ↔ IsInside offset size filesystem_bytes
unfolding validate_region
validate_region_iff label offset size filesystem_bytes = (λ h. ground arith, λ h. ground arith)

capacity_warnings_iff :
    (m : MasterSector) (source_size : ℕ)
    → (capacity_warnings m source_size ≡ [])
      ↔ ((0 < m.hdd_capacity) × (m.hdd_capacity ≤ source_size))
unfolding capacity_warnings
capacity_warnings_iff m source_size = (λ h. ground arith, λ h. ground arith)

block_warnings_iff :
    (m : MasterSector)
    → (block_warnings m ≡ []) ↔ (
        (0 < m.data_block_size)
        × (m.data_block_size ≤ 1024 * 1024 * 1024)
        × (m.data_block_size % 512 ≡ 0))
unfolding block_warnings
block_warnings_iff m = (λ h. ground arith, λ h. ground arith)

span_warnings_iff :
    (m : MasterSector) (filesystem_bytes : ℕ)
    → 0 < m.data_block_size
    → m.video_data_offset < filesystem_bytes
    → (span_warnings m filesystem_bytes ≡ []) ↔ (
        (0 < m.total_data_blocks)
        × (m.video_data_offset + m.data_block_size * m.total_data_blocks ≤ filesystem_bytes))
unfolding span_warnings
span_warnings_iff m filesystem_bytes p q = (λ h. ground arith, λ h. ground arith)

-- `validate` finds nothing to warn of exactly when the declared layout fits the image: the base,
-- the capacity, the video region with all its blocks, and the three regions lie inside it, and
-- the block size is positive, sector aligned and at most one GiB.
pub validate_iff :
    (m : MasterSector) (source_size : ℕ) → (validate m source_size ≡ []) ↔ IsLaidOut m source_size
unfolding validate
validate_iff m source_size = (
  λ h.
      let base : m.filesystem_base_offset ≤ source_size = ground arith in
      let fs = source_size - m.filesystem_base_offset in
      let whole = rw (le→ltb-false source_size m.filesystem_base_offset base) at h in
      let (c, rest) = append_eq_nil (capacity_warnings m source_size) _ whole in
      let (v, rest) = append_eq_nil (warn_if (leb fs m.video_data_offset) _) _ rest in
      let (b, rest) = append_eq_nil (block_warnings m) _ rest in
      let (s, rest) = append_eq_nil (span_warnings m fs) _ rest in
      let (l, rest) =
        append_eq_nil (validate_region "System-log" m.system_log_offset m.system_log_size fs) _
          rest in
      let (p, q) =
        append_eq_nil
          (validate_region "Primary HIKBTREE" m.primary_tree_offset m.primary_tree_size fs) _
          rest in
      let inside : m.video_data_offset < fs = ground arith in
      let block = (block_warnings_iff m).0 b in
      let span = (span_warnings_iff m fs block.0 inside).0 s in
      record {
        base = base;
        capacity = (capacity_warnings_iff m source_size).0 c;
        video_offset = omega arith;
        block_size = (block.0, block.1);
        sector_aligned = block.2;
        blocks = (span.0, omega (arith, span.1));
        system_log = (validate_region_iff "System-log" _ _ _).0 l;
        primary_tree = (validate_region_iff "Primary HIKBTREE" _ _ _).0 p;
        secondary_tree = (validate_region_iff "Secondary HIKBTREE" _ _ _).0 q;
      },
  λ h.
      let fs = source_size - m.filesystem_base_offset in
      ground (
        arith,
        (capacity_warnings_iff m source_size).1 h.capacity,
        (block_warnings_iff m).1 (h.block_size.0, h.block_size.1, h.sector_aligned),
        (span_warnings_iff m fs h.block_size.0 (omega (arith, h.base, h.video_offset))).1
            (h.blocks.0, omega (arith, h.base, h.blocks.1)),
        (validate_region_iff "System-log" m.system_log_offset m.system_log_size fs).1 h.system_log,
        (validate_region_iff "Primary HIKBTREE" m.primary_tree_offset m.primary_tree_size fs).1
            h.primary_tree,
        (validate_region_iff "Secondary HIKBTREE" m.secondary_tree_offset m.secondary_tree_size
              fs).1
            h.secondary_tree,
      ),
)
