-- ===== src/Auth/Texts.antt =====
-- The text functions of Python that auth/store.py calls: UTF-8, `split`, and hexadecimal digits.
use sih.Common.{
  ℕ, ◌+◌, ◌-◌, ◌*◌, ◌/◌, ◌%◌, Bool, ◌&&◌, ◌||◌, Option, none, some, List, [], ◌∷◌, ◌++◌, ltb, leb,
  ◌==◌, if◌then◌else◌, text, ErrorKind, Result, ok, raise, ◌>>=◌,
}
use sih.Common.Bytes.{Bytes}
use sih.Common.Text.{Text, is_space}

-- `text.split(separator)` for a separator of one character
abbrev pub onto_first : ℕ → List Text → List Text
onto_first c [] = (c ∷ []) ∷ []
onto_first c (w ∷ ws) = (c ∷ w) ∷ ws

unfoldable pub split_on : ℕ → Text → List Text
split_on separator [] = [] ∷ []
split_on separator (c ∷ s) =
    let rest = split_on separator s in if c == separator then [] ∷ rest else onto_first c rest

-- `"".join(text.split())`
unfoldable pub without_spaces : Text → Text
without_spaces [] = []
without_spaces (c ∷ s) = let rest = without_spaces s in if is_space c then rest else c ∷ rest

abbrev pub hex_digit : ℕ → ℕ
hex_digit d = if ltb d 10 then 48 + d else 87 + d

-- `data.hex()`
unfoldable pub hex : Bytes → Text
hex [] = []
hex (b ∷ bs) = hex_digit (b / 16) ∷ hex_digit (b % 16) ∷ hex bs

abbrev pub digit_value : ℕ → Option ℕ
digit_value c =
    if leb 48 c && leb c 57
    then some (c - 48)
    else if leb 97 c && leb c 102
    then some (c - 87)
    else if leb 65 c && leb c 70
    then some (c - 55)
    else none

-- The spaces that `bytes.fromhex` skips.
abbrev pub is_ascii_space : ℕ → Bool
is_ascii_space c = leb 9 c && leb c 13 || c == 32

-- One pair of digits before the rest.
abbrev pub from_pair : Option ℕ → Option ℕ → Option Bytes → Option Bytes
from_pair (some h) (some l) (some bs) = some ((16 * h + l) ∷ bs)
from_pair _ _ _ = none

-- `bytes.fromhex(text)`, with `none` for a ValueError
unfoldable pub from_hex : Text → Option Bytes
from_hex [] = some []
from_hex (c ∷ []) = if is_ascii_space c then some [] else none
from_hex (c ∷ d ∷ s) =
    let skipped = from_hex (d ∷ s) in
    let paired = from_pair (digit_value c) (digit_value d) (from_hex s) in
    if is_ascii_space c then skipped else paired

-- `text.encode("utf-8")`, which fails on surrogates
unfoldable pub utf8 : Text → Result Bytes
utf8 [] = ok []
utf8 (c ∷ s) = do
  rest ← utf8 s
  if leb 0xd800 c && leb c 0xdfff
      then raise ErrorKind.unicode_error (text "surrogates not allowed")
      else ok (
          (if ltb c 0x80
            then c ∷ []
            else if ltb c 0x800
            then (0xc0 + c / 64) ∷ (0x80 + c % 64) ∷ []
            else if ltb c 0x10000
            then (0xe0 + c / 4096) ∷ (0x80 + c / 64 % 64) ∷ (0x80 + c % 64) ∷ []
            else (0xf0 + c / 262144)
              ∷ (0x80 + c / 4096 % 64)
              ∷ (0x80 + c / 64 % 64)
              ∷ (0x80 + c % 64)
              ∷ [])
          ++ rest)
