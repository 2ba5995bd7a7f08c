-- ===== src/Auth/Password/Tests.antt =====
-- The password hasher with a toy key derivation.
use sih.Common.{ℕ, ◌≡◌, ◌↔◌, true, refl, [], ◌∷◌, Option, none, some, if◌then◌else◌, ok, arith}
use sih.Common.Bytes.{Bytes, bytes_eq}
use sih.Common.Text.{Text, codes}
use sih.Auth.Texts.{utf8}
use sih.Auth.Password.{verify, hash, validate_password, encoded_hash}
use sih.Auth.Password.RoundTrip.{IsScrypt, IsSameKey, hash-verify}

abbrev key : Bytes
key = 1 ∷ 2 ∷ 3 ∷ 4 ∷ 5 ∷ 6 ∷ 7 ∷ 8 ∷ 9 ∷ 10 ∷ 11 ∷ 12 ∷ 13 ∷ 14 ∷ 15 ∷ 16 ∷ []

-- Half of the key tells the passwords of different lengths apart.
abbrev toy_scrypt : Bytes → Bytes → Bytes
toy_scrypt password salt =
    (if bytes_eq password (0x66 ∷ []) then 1 else 2)
    ∷ 0
    ∷ 0
    ∷ 0
    ∷ 0
    ∷ 0
    ∷ 0
    ∷ 0
    ∷ 0
    ∷ 0
    ∷ 0
    ∷ 0
    ∷ 0
    ∷ 0
    ∷ 0
    ∷ 0
    ∷ key

abbrev toy_int : Text → Option ℕ
toy_int s =
    if bytes_eq s (codes "16384")
    then some 16384
    else if bytes_eq s (codes "8")
    then some 8
    else if bytes_eq s (codes "1")
    then some 1
    else none

toy_scrypt-IsScrypt : IsScrypt toy_scrypt toy_int
toy_scrypt-IsScrypt = record {
  key_length = λ password salt. refl;
  key_bytes = λ password salt. ground arith;
  reads_n = refl;
  reads_r = refl;
  reads_p = refl;
}

abbrev password : Text
password = codes "correct horse"

hash_run : hash toy_scrypt toy_int password key ≡ ok (encoded_hash key (toy_scrypt password key))
unfolding hash validate_password utf8
hash_run = refl

hash-verify_example :
    (verify toy_scrypt toy_int password (encoded_hash key (toy_scrypt password key)) ≡ true)
    × ((verify toy_scrypt toy_int (codes "wrong") (encoded_hash key (toy_scrypt password key))
          ≡ true)
        ↔ IsSameKey toy_scrypt-IsScrypt password (codes "wrong") key)
hash-verify_example =
    hash-verify toy_scrypt-IsScrypt password (codes "wrong") key
      (encoded_hash key (toy_scrypt password key)) refl (omega arith) hash_run
