-- ===== src/Auth/Password.antt =====
-- `PasswordHasher` of auth/store.py. scrypt with the parameters of the class, and `int` on a text,
-- are section parameters; `secrets.token_bytes` is an argument.
pub mod RoundTrip
mod Tests
use sih.Common.{
  ℕ, Bool, true, false, ◌&&◌, ◌||◌, not, Option, none, some, List, [], ◌∷◌, ◌++◌, length, ltb, ◌==◌,
  if◌then◌else◌, text, ErrorKind, Result, ok, err, raise_if, ◌>>=◌, ◌>>◌,
}
use sih.Common.Bytes.{Bytes, bytes_eq}
use sih.Common.Text.{Text, codes}
use sih.Auth.Texts.{split_on, hex, from_hex, utf8}

abbrev pub salt_size : ℕ
salt_size = 16

abbrev pub key_size : ℕ
key_size = 32

-- `_validate_password`
pub validate_password : Text → Result Bytes
validate_password password = do
  encoded ← utf8 password
  raise_if (ltb (length encoded) 12) ErrorKind.value_error
      (text "Password must contain at least 12 bytes")
  raise_if (ltb 1024 (length encoded)) ErrorKind.value_error
      (text "Password exceeds the maximum length")
  ok encoded

abbrev pub dollar : ℕ
dollar = 36

abbrev pub scheme : Text
scheme = codes "forenx-scrypt-v1"

-- f"forenx-scrypt-v1${self.N}${self.R}${self.P}${salt.hex()}${derived.hex()}"
abbrev pub encoded_hash : Bytes → Bytes → Text
encoded_hash salt derived =
    scheme
    ++ dollar
      ∷ (codes "16384"
          ++ dollar
            ∷ (codes "8" ++ dollar ∷ (codes "1" ++ dollar ∷ (hex salt ++ dollar ∷ hex derived))))

abbrev pub is_number : Option ℕ → ℕ → Bool
is_number none n = false
is_number (some m) n = m == n

module _ (scrypt : (password salt : Bytes) → Bytes) (to_int : Text → Option ℕ) where
  -- `hash`
  pub hash : Text → (salt : Bytes) → Result Text
  hash password salt = do
    password_bytes ← validate_password password
    ok (encoded_hash salt (scrypt password_bytes salt))

  -- `verify` behind the parsing of the two hexadecimal parts
  pub compare_hash : Bytes → Option Bytes → Option Bytes → Bool
  compare_hash password_bytes (some salt) (some expected) =
      if not (length salt == salt_size) || not (length expected == key_size)
      then false
      else bytes_eq (scrypt password_bytes salt) expected
  compare_hash password_bytes none expected = false
  compare_hash password_bytes (some salt) none = false

  -- `verify` behind the split of the encoded hash
  pub verify_parts : Bytes → List Text → Bool
  verify_parts password_bytes (name ∷ n_text ∷ r_text ∷ p_text ∷ salt_hex ∷ expected_hex ∷ []) =
      bytes_eq name scheme
      && (is_number (to_int n_text) 16384
          && is_number (to_int r_text) 8
          && is_number (to_int p_text) 1)
      && compare_hash password_bytes (from_hex salt_hex) (from_hex expected_hex)
  verify_parts password_bytes _ = false

  -- `verify`
  pub verify : Text → Text → Bool
  verify password encoded = elim (utf8 password) [
    | err e ↦ false
    | ok password_bytes ↦
        if length password_bytes == 0 || ltb 1024 (length password_bytes)
        then false
        else verify_parts password_bytes (split_on dollar encoded)
  ]
