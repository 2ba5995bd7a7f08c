-- ===== src/Common/Bytes.antt =====
-- Python's `bytes` as lists of numbers: slices, equality, `find`, `bytes[i]`, and the
-- little-endian integers of `struct.unpack_from` and `int.from_bytes`.
use Prim.Native.Nat.{ℕ, zero, suc, ◌+◌, ◌*◌, ◌≤◌, ◌<◌}
use mathlib.Core.Path.{◌≡◌, refl}
use mathlib.Core.Bool.{Bool, true, false, ◌&&◌}
use mathlib.Core.List.{List, [], ◌∷◌}
use mathlib.Core.Option
use mathlib.Core.Option.{Option, none, some}
use native.Mathlib.Omega.{arith}
use sih.Common.Tests.{leb, ◌==◌, if◌then◌else◌, le→leb}
use sih.Common.Lists.{length, get_elem?, slice}
use sih.Common.Exceptions.{text, ErrorKind, Result, ok, raise}

abbrev pub Bytes : Type 0
Bytes = List ℕ

abbrev pub IsByte : ℕ → Type 0
IsByte b = b < 256

abbrev pub bytes_eq : Bytes → Bytes → Bool
bytes_eq [] [] = true
bytes_eq [] (y ∷ ys) = false
bytes_eq (x ∷ xs) [] = false
bytes_eq (x ∷ xs) (y ∷ ys) = (x == y) && bytes_eq xs ys

pub bytes_eq→eq : (xs ys : Bytes) → bytes_eq xs ys ≡ true → xs ≡ ys
bytes_eq→eq [] [] h = refl
bytes_eq→eq [] (y ∷ ys) h = cc
bytes_eq→eq (x ∷ xs) [] h = cc
bytes_eq→eq (x ∷ xs) (y ∷ ys) h = ground (arith, bytes_eq→eq xs ys)

pub bytes_eq_refl : (xs : Bytes) → bytes_eq xs xs ≡ true
bytes_eq_refl [] = refl
bytes_eq_refl (x ∷ xs) = ground (arith, bytes_eq_refl xs)

-- `data[i]`
unfoldable pub byte_at : Bytes → ℕ → Result ℕ
byte_at bs i = elim (get_elem? bs i) [
  | some b ↦ ok b
  | none ↦ raise ErrorKind.index_error (text "index out of range")
]

-- `int.from_bytes(data, "little")`
abbrev pub from_little : Bytes → ℕ
from_little [] = 0
from_little (b ∷ bs) = b + 256 * from_little bs

-- `struct.unpack_from` of one little-endian unsigned integer of `width` bytes at `offset`
unfoldable pub unpack_from : ℕ → Bytes → ℕ → Result ℕ
unpack_from width bs offset =
    if leb (offset + width) (length bs)
    then ok (from_little (slice bs offset width))
    else raise ErrorKind.struct_error (text "unpack_from requires a larger buffer")

pub unpack_from_in :
    (width : ℕ) (bs : Bytes) (offset : ℕ)
    → offset + width ≤ length bs
    → unpack_from width bs offset ≡ ok (from_little (slice bs offset width))
unfolding unpack_from
unpack_from_in width bs offset h = rw (le→leb _ _ h)

byte_at-some : (bs : Bytes) (i b : ℕ) → get_elem? bs i ≡ some b → byte_at bs i ≡ ok b
unfolding byte_at
byte_at-some bs i b h = rw (h, byte_at)

get_elem?_in : (bs : Bytes) (i : ℕ) → i < length bs → (b : ℕ) × (get_elem? bs i ≡ some b)
get_elem?_in [] i h = elim h [ ]
get_elem?_in (b ∷ bs) zero h = (b, refl)
get_elem?_in (b ∷ bs) (suc i) h = get_elem?_in bs i (omega arith)

pub byte_at_in :
    (bs : Bytes) (i : ℕ)
    → i < length bs
    → (b : ℕ) × (byte_at bs i ≡ ok b) × (get_elem? bs i ≡ some b)
byte_at_in bs i h = let (b, e) = get_elem?_in bs i h in (b, byte_at-some bs i b e, e)

abbrev pub starts_with : Bytes → Bytes → Bool
starts_with [] ys = true
starts_with (x ∷ xs) [] = false
starts_with (x ∷ xs) (y ∷ ys) = (x == y) && starts_with xs ys

-- `data.find(pattern)`, with `none` for -1
unfoldable pub find : Bytes → Bytes → Option ℕ
find p [] = if starts_with p [] then some 0 else none
find p (x ∷ xs) = if starts_with p (x ∷ xs) then some 0 else Option.map suc (find p xs)

-- `_read_u64` and `_read_u32`, which two modules of the Hikvision adapter define alike
abbrev pub read_u64 : Bytes → ℕ → Result ℕ
read_u64 = unpack_from 8

abbrev pub read_u32 : Bytes → ℕ → Result ℕ
read_u32 = unpack_from 4
