-- ===== src/Hikvision/Sample.antt =====
-- A small disk image for the tests: a master sector, a tree of one page with one recording, and
-- one block of H.264 video.
use sih.Common.{
  ℕ, zero, suc, ◌-◌, ◌/◌, ◌%◌, ◌≡◌, refl, false, List, [], ◌∷◌, ◌++◌, length, slice, ok, arith, All,
  All-append,
}
use sih.Common.Bytes.{Bytes, IsByte}
use sih.Common.Text.{codes}
use sih.Evidence.{Source, readable}
use sih.Evidence.Readable.{ReadableEvidence, IsImage}
use sih.Evidence.Reads.{readable-IsImage}

abbrev pub fill : ℕ → ℕ → Bytes
fill zero b = []
fill (suc n) b = b ∷ fill n b

abbrev pub little : ℕ → ℕ → Bytes
little zero n = []
little (suc w) n = (n % 256) ∷ little w (n / 256)

fill-IsByte : (n b : ℕ) → IsByte b → All IsByte (fill n b)
fill-IsByte zero b h = tt
fill-IsByte (suc n) b h = (h, fill-IsByte n b h)

little-IsByte : (w n : ℕ) → All IsByte (little w n)
little-IsByte zero n = tt
little-IsByte (suc w) n = (omega arith, little-IsByte w (n / 256))

-- A part of the image: text, padding or a little-endian number.
pub data Part : Type 0 where
  raw : Bytes → Part
  padding : ℕ → Part
  ones : ℕ → Part
  number : ℕ → ℕ → Part

abbrev pub bytes_of : Part → Bytes
bytes_of (raw bs) = bs
bytes_of (padding n) = fill n 0
bytes_of (ones n) = fill n 255
bytes_of (number w n) = little w n

abbrev pub IsFine : Part → Type 0
IsFine (raw bs) = All IsByte bs
IsFine _ = Unit

part-IsByte : (q : Part) → IsFine q → All IsByte (bytes_of q)
part-IsByte (raw bs) h = h
part-IsByte (padding n) h = fill-IsByte n 0 (omega arith)
part-IsByte (ones n) h = fill-IsByte n 255 (omega arith)
part-IsByte (number w n) h = little-IsByte w n

abbrev pub join : List Part → Bytes
join [] = []
join (q ∷ qs) = bytes_of q ++ join qs

join-IsByte : (qs : List Part) → All IsFine qs → All IsByte (join qs)
join-IsByte [] h = tt
join-IsByte (q ∷ qs) h =
    All-append IsByte (bytes_of q) (join qs) (part-IsByte q h.0) (join-IsByte qs h.1)

abbrev pub parts : List Part
parts =
    raw (codes "HIKVISION@HANGZHOU")
    ∷ padding (0x38 - 18)
    ∷ number 8 5120
    ∷ padding 16
    ∷ number 8 496
    ∷ number 8 8
    ∷ padding 8
    ∷ number 8 4608
    ∷ padding 8
    ∷ number 8 512
    ∷ number 8 1
    ∷ number 8 256
    ∷ number 8 96
    ∷ number 8 256
    ∷ number 8 96
    ∷ padding (0xe0 - 0xa8)
    ∷ number 4 1700000000
    ∷ padding 28
    ∷ raw (codes "HIKBTREE")
    ∷ padding (0x40 - 8)
    ∷ number 8 352
    ∷ number 8 512
    ∷ padding 16
    ∷ number 4 1
    ∷ padding 76
    ∷ number 8 512
    ∷ padding 72
    ∷ padding 80
    ∷ ones 8
    ∷ padding 9
    ∷ number 1 3
    ∷ padding 6
    ∷ number 4 1700000000
    ∷ number 4 1700000060
    ∷ number 8 4608
    ∷ padding 8
    ∷ padding (4096 - 128)
    ∷ raw (0 ∷ 0 ∷ 0 ∷ 1 ∷ 0x67 ∷ 9 ∷ 0 ∷ 0 ∷ 0 ∷ 1 ∷ 0x68 ∷ 9 ∷ 0 ∷ 0 ∷ 1 ∷ 0x65 ∷ [])
    ∷ padding 496
    ∷ []

abbrev pub disk : Bytes
disk = join parts

pub length-disk : length disk ≡ 5120
length-disk = refl

abbrev pub disk_source : Source
disk_source = record {
  size = 5120;
  max_read_size = 8192;
  closed = false;
  pread = λ n o. ok (slice disk o n);
}

abbrev pub disk_evidence : ReadableEvidence
disk_evidence = readable disk_source

pub disk-IsByte : All IsByte disk
disk-IsByte = join-IsByte parts (omega arith)

pub disk-IsImage : IsImage disk_evidence disk 8192
disk-IsImage =
    readable-IsImage disk_source disk
      (record { is_open = refl; size_eq = refl; pread_eq = λ n o h. refl }) disk-IsByte
