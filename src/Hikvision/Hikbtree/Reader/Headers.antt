-- ===== src/Hikvision/Hikbtree/Reader/Headers.antt =====
-- The tree header: every read is inside the image, and each field is read where the format has it.
use sih.Common.{
  ℕ, ◌+◌, ◌≤◌, ◌≡◌, refl, subst, String, true, false, not, ◌⊎◌, inl, inr, Option, none, some, List,
  [], ◌∷◌, arith, Bool-cases, ErrorKind, length, slice, ok, slice-slice, length-slice_in,
}
use sih.Common.Bytes.{Bytes, from_little, unpack_from_in, bytes_eq→eq}
use sih.Common.Ensures.{
  Ensures, Ensures-raise_if, Ensures-bind, returns, raises, Ensures-weaken, Ensures-if,
}
use sih.Evidence.Readable.{ReadableEvidence, IsImage}
use sih.Hikvision.Hikbtree.Entry.{hikbtree_signature, Header}
use sih.Hikvision.Hikbtree.Reader.{
  Parser, contains, absolute_offset, has_signature, find_signature, read_header, read_found,
  parse_header,
}

abbrev pub IsFormatError : ErrorKind → Type 0
IsFormatError k = k ≡ ErrorKind.hikvision_format_error

abbrev pub u64_at : Bytes → ℕ → ℕ
u64_at bs o = from_little (slice bs o 8)

abbrev pub u32_at : Bytes → ℕ → ℕ
u32_at bs o = from_little (slice bs o 4)

pub contains→le : (s : ReadableEvidence) (o n : ℕ) → contains s o n ≡ true → o + n ≤ s.size
unfolding contains
contains→le s o n h = ground arith

pub le→contains : (s : ReadableEvidence) (o n : ℕ) → o + n ≤ s.size → contains s o n ≡ true
unfolding contains
le→contains s o n h = ground arith

-- The parser works on an image whose reads of a page are within the limit.
pub record Reads (p : Parser) (content : Bytes) : Type 0 where
  pub limit : ℕ
  pub image : IsImage p.source content limit
  pub page_fits : 4096 ≤ limit

module _ {p : Parser} {content : Bytes} (r : Reads p content) where
  pub read_contained :
      (o n : ℕ)
      → n ≤ 4096
      → contains p.source o n ≡ true
      → (p.source.read_at o n ≡ ok (slice content o n))
        × (o + n ≤ length content)
        × (length (slice content o n) ≡ n)
  read_contained o n small h =
      let inside : o + n ≤ length content =
        omega (arith, contains→le p.source o n h, r.image.size_eq) in
      (
        r.image.read_eq o n (omega (arith, r.page_fits)) inside,
        inside,
        length-slice_in content o n inside,
      )

  pub absolute_offset-Ensures :
      (relative_offset count : ℕ) (label : String)
      → Ensures IsFormatError
          (λ a.
            (a ≡ p.filesystem_base_offset + relative_offset) × (contains p.source a count ≡ true))
          (absolute_offset p relative_offset count label)
  unfolding absolute_offset
  absolute_offset-Ensures relative_offset count label = ground arith

  abbrev IsSigned : ℕ → Type 0
  IsSigned o = (o + 8 ≤ length content) × (slice content o 8 ≡ hikbtree_signature)

  has_signature-Ensures :
      (candidate : ℕ)
      → Ensures IsFormatError (λ b. b ≡ true → IsSigned candidate) (has_signature p candidate)
  unfolding has_signature
  has_signature-Ensures candidate = elim (Bool-cases (contains p.source candidate 8)) [
    | inl inside ↦
        let (e, fits, _) = read_contained candidate 8 (omega arith) inside in
        rw (inside, e) (returns _ λ h. (fits, bytes_eq→eq _ _ h))
    | inr outside ↦ rw outside (returns false (λ h. cc))
  ]

  abbrev FoundAt : ℕ → List ℕ → Option ℕ → Type 0
  FoundAt tree_base adjustments none = Unit
  FoundAt tree_base [] (some o) = ⊥
  FoundAt tree_base (a ∷ rest) (some o) =
      ((o ≡ tree_base + a) × IsSigned o) ⊎ FoundAt tree_base rest (some o)

  FoundAt-cons :
      (tree_base a : ℕ) (rest : List ℕ) (o : Option ℕ)
      → FoundAt tree_base rest o
      → FoundAt tree_base (a ∷ rest) o
  FoundAt-cons tree_base a rest none h = tt
  FoundAt-cons tree_base a rest (some o) h = inr h

  find_signature-Ensures :
      (tree_base : ℕ) (adjustments : List ℕ)
      → Ensures IsFormatError
          (FoundAt tree_base adjustments)
          (find_signature p tree_base adjustments)
  unfolding find_signature
  find_signature-Ensures tree_base [] = returns none tt
  find_signature-Ensures tree_base (a ∷ rest) =
      Ensures-bind (has_signature p (tree_base + a)) _ (has_signature-Ensures (tree_base + a))
        λ here signed.
          Ensures-if here _ _ (λ h. returns (some (tree_base + a)) (inl (refl, signed h)))
            (λ h.
              Ensures-weaken _ (FoundAt-cons tree_base a rest)
                (find_signature-Ensures tree_base rest))

  -- The header of the format, read from the image at the signature.
  abbrev pub header_of : ℕ → Header
  header_of o = record {
    signature_offset = o;
    version_raw = slice content (o + 0x10) 0x10;
    created_time_raw = u32_at content (o + 0x2c);
    footer_offset = u64_at content (o + 0x30);
    page_list_offset = u64_at content (o + 0x40);
    first_page_offset = u64_at content (o + 0x48);
    header_size = u32_at content (o + 0x50);
    declared_block_count = u64_at content (o + 0x58);
  }

  -- The header is that of a signature at the base of the tree or 16 bytes behind it.
  pub record IsHeader (tree_offset : ℕ) (h : Header) : Type 0 where
    pub fields : h ≡ header_of h.signature_offset
    pub place :
        (h.signature_offset ≡ p.filesystem_base_offset + tree_offset)
        ⊎ (h.signature_offset ≡ p.filesystem_base_offset + tree_offset + 16)
    pub signed : slice content h.signature_offset 8 ≡ hikbtree_signature
    pub inside : h.signature_offset + 0x60 ≤ length content

  read_header-Ensures :
      (o : ℕ)
      → Ensures IsFormatError
          (λ h. (h ≡ header_of o) × (o + 0x60 ≤ length content))
          (read_header p o)
  unfolding read_header
  read_header-Ensures o = Ensures-raise_if (not (contains p.source o 0x60)) _ _ _ refl λ fits.
      let (e, inside, n) = read_contained o 0x60 (omega arith) (ground arith) in
      rw
        (
          e,
          unpack_from_in 4 (slice content o 0x60) 0x2c (omega (arith, n)),
          unpack_from_in 8 (slice content o 0x60) 0x30 (omega (arith, n)),
          unpack_from_in 8 (slice content o 0x60) 0x40 (omega (arith, n)),
          unpack_from_in 8 (slice content o 0x60) 0x48 (omega (arith, n)),
          unpack_from_in 4 (slice content o 0x60) 0x50 (omega (arith, n)),
          unpack_from_in 8 (slice content o 0x60) 0x58 (omega (arith, n)),
          slice-slice content o 0x60 0x10 0x10 (omega arith),
          slice-slice content o 0x60 0x2c 4 (omega arith),
          slice-slice content o 0x60 0x30 8 (omega arith),
          slice-slice content o 0x60 0x40 8 (omega arith),
          slice-slice content o 0x60 0x48 8 (omega arith),
          slice-slice content o 0x60 0x50 4 (omega arith),
          slice-slice content o 0x60 0x58 8 (omega arith),
        )
        (returns _ (refl, inside))

  read_found-Ensures :
      (tree_offset : ℕ) (found : Option ℕ)
      → FoundAt (p.filesystem_base_offset + tree_offset) (0 ∷ 16 ∷ []) found
      → Ensures IsFormatError
          (IsHeader tree_offset)
          (read_found p (p.filesystem_base_offset + tree_offset) found)
  read_found-Ensures tree_offset none h = raises _ _ refl
  read_found-Ensures tree_offset (some o) h =
      Ensures-weaken (read_header p o)
        (λ header (e, inside).
          rw e (record {
            fields = refl;
            place = ground arith;
            signed = ground arith;
            inside = inside;
          }))
        (read_header-Ensures o)

  -- `_parse_header` is total: it finds the signature at one of its two places inside the image and
  -- returns the fields that follow it, or raises HikvisionFormatError.
  pub parse_header-Ensures :
      (tree_offset : ℕ) → Ensures IsFormatError (IsHeader tree_offset) (parse_header p tree_offset)
  unfolding parse_header
  parse_header-Ensures tree_offset =
      Ensures-bind (absolute_offset p tree_offset 0 "HIKBTREE base") _
        (absolute_offset-Ensures tree_offset 0 "HIKBTREE base")
        λ tree_base at_base.
          Ensures-bind (find_signature p tree_base (0 ∷ 16 ∷ [])) _
            (find_signature-Ensures tree_base (0 ∷ 16 ∷ []))
            λ found at. rw at_base.0 (
              read_found-Ensures tree_offset found
                (subst (λ b. FoundAt b (0 ∷ 16 ∷ []) found) at_base.0 at))
