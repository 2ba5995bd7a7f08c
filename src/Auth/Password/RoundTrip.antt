-- ===== src/Auth/Password/RoundTrip.antt =====
-- A password verifies against the hash that was made of it.
use sih.Common.{
  ℕ, ◌+◌, ◌*◌, ◌/◌, ◌%◌, ◌≤◌, ◌<◌, ◌≡◌, ◌↔◌, ◌≢◌, refl, sym, ap, ◌∙◌, true, false, ◌||◌, Option,
  some, [], ◌∷◌, ◌++◌, length, All, ltb, ◌==◌, ok, ErrorKind, arith, Bool-cases, inl, inr, Message,
  subst, Result-cases, >>=-eq-ok, raise_if, ◌>>◌,
}
use sih.Common.Bytes.{Bytes, IsByte, bytes_eq, bytes_eq_refl, bytes_eq→eq}
use sih.Common.Text.{Text, codes}
use sih.Auth.Texts.{split_on, hex, from_hex, digit_value, hex_digit, is_ascii_space, utf8}
use sih.Auth.Password.{
  validate_password, dollar, scheme, encoded_hash, hash, compare_hash, verify_parts, verify,
}

abbrev IsFree : ℕ → Text → Type 0
IsFree c = All (λ d. (d == c) ≡ false)

split_on-append :
    (c : ℕ) (xs ys : Text) → IsFree c xs → split_on c (xs ++ c ∷ ys) ≡ xs ∷ split_on c ys
unfolding split_on
split_on-append c [] ys h = ground arith
split_on-append c (x ∷ xs) ys h = rw (h.0, split_on-append c xs ys h.1)

split_on_free : (c : ℕ) (xs : Text) → IsFree c xs → split_on c xs ≡ xs ∷ []
unfolding split_on
split_on_free c [] h = refl
split_on_free c (x ∷ xs) h = rw (h.0, split_on_free c xs h.1)

hex_digit_free : (d : ℕ) → d < 16 → (hex_digit d == dollar) ≡ false
hex_digit_free d h = ground arith

hex-IsFree : (bs : Bytes) → All IsByte bs → IsFree dollar (hex bs)
unfolding hex
hex-IsFree [] h = tt
hex-IsFree (b ∷ bs) h = (
  hex_digit_free (b / 16) (omega (arith, h.0)),
  (hex_digit_free (b % 16) (omega arith), hex-IsFree bs h.1),
)

digit_value-hex_digit : (d : ℕ) → d < 16 → digit_value (hex_digit d) ≡ some d
digit_value-hex_digit d h = ground arith

hex_digit_solid : (d : ℕ) → d < 16 → is_ascii_space (hex_digit d) ≡ false
hex_digit_solid d h = ground arith

from_hex-hex : (bs : Bytes) → All IsByte bs → from_hex (hex bs) ≡ some bs
unfolding hex from_hex
from_hex-hex [] h = refl
from_hex-hex (b ∷ bs) h =
    rw
      (
        hex_digit_solid (b / 16) (omega (arith, h.0)),
        digit_value-hex_digit (b / 16) (omega (arith, h.0)),
        digit_value-hex_digit (b % 16) (omega arith),
        from_hex-hex bs h.1,
      )
      (let joined : 16 * (b / 16) + b % 16 ≡ b = omega arith in rw joined)

-- The five separators of an encoded hash are found again.
split_on-encoded_hash :
    (salt derived : Bytes)
    → All IsByte salt
    → All IsByte derived
    → split_on dollar (encoded_hash salt derived)
      ≡ scheme ∷ codes "16384" ∷ codes "8" ∷ codes "1" ∷ hex salt ∷ hex derived ∷ []
split_on-encoded_hash salt derived hs hd =
    split_on-append dollar scheme _ (ground arith)
    ∙ ap (◌∷◌ scheme) (
        split_on-append dollar (codes "16384") _ (ground arith)
        ∙ ap (◌∷◌ (codes "16384")) (
            split_on-append dollar (codes "8") _ (ground arith)
            ∙ ap (◌∷◌ (codes "8")) (
                split_on-append dollar (codes "1") _ (ground arith)
                ∙ ap (◌∷◌ (codes "1")) (
                    split_on-append dollar (hex salt) _ (hex-IsFree salt hs)
                    ∙ ap (◌∷◌ (hex salt))
                        (split_on_free dollar (hex derived) (hex-IsFree derived hd))))))

-- What the hasher relies on: scrypt returns `dklen` bytes, and `int` reads the three numerals.
pub record IsScrypt (scrypt : (password salt : Bytes) → Bytes) (to_int : Text → Option ℕ)
    : Type 0 where
  pub key_length : (password salt : Bytes) → length (scrypt password salt) ≡ 32
  pub key_bytes : (password salt : Bytes) → All IsByte (scrypt password salt)
  pub reads_n : to_int (codes "16384") ≡ some 16384
  pub reads_r : to_int (codes "8") ≡ some 8
  pub reads_p : to_int (codes "1") ≡ some 1

false-true : false ≢ true
false-true h = cc

checked_length :
    (encoded bs : Bytes) (short long : Message)
    → (raise_if (ltb (length encoded) 12) ErrorKind.value_error short
        >> (raise_if (ltb 1024 (length encoded)) ErrorKind.value_error long >> ok encoded))
      ≡ ok bs
    → (encoded ≡ bs) × (12 ≤ length bs) × (length bs ≤ 1024)
checked_length encoded bs short long h = ground arith

ok-injective : {A : Type 0} {a b : A} → ok a ≡ ok b → a ≡ b
ok-injective h = cc

module _ {scrypt : (password salt : Bytes) → Bytes} {to_int : Text → Option ℕ}
    (is_scrypt : IsScrypt scrypt to_int) where
  verify_parts-encoded_hash :
      (password_bytes original salt : Bytes)
      → length salt ≡ 16
      → All IsByte salt
      → verify_parts scrypt to_int password_bytes
          (split_on dollar (encoded_hash salt (scrypt original salt)))
        ≡ bytes_eq (scrypt password_bytes salt) (scrypt original salt)
  unfolding verify_parts compare_hash
  verify_parts-encoded_hash password_bytes original salt size bytes =
      let key = is_scrypt.key_bytes original salt in
      rw (
        split_on-encoded_hash salt (scrypt original salt) bytes key,
        is_scrypt.reads_n,
        is_scrypt.reads_r,
        is_scrypt.reads_p,
        from_hex-hex salt bytes,
        from_hex-hex (scrypt original salt) key,
        size,
        is_scrypt.key_length original salt,
      )

  validate_password_bounds :
      (password : Text) (bs : Bytes)
      → validate_password password ≡ ok bs
      → (utf8 password ≡ ok bs) × (12 ≤ length bs) × (length bs ≤ 1024)
  unfolding validate_password
  validate_password_bounds password bs valid =
      let (encoded, read, checked) = >>=-eq-ok (utf8 password) _ valid in
      let (same, long, short) = checked_length encoded bs _ _ checked in
      (read ∙ ap ok same, long, short)

  verify-encoded_hash :
      (other : Text) (bs original salt : Bytes)
      → length salt ≡ 16
      → All IsByte salt
      → utf8 other ≡ ok bs
      → (length bs == 0 || ltb 1024 (length bs)) ≡ false
      → verify scrypt to_int other (encoded_hash salt (scrypt original salt))
        ≡ bytes_eq (scrypt bs salt) (scrypt original salt)
  unfolding verify
  verify-encoded_hash other bs original salt size bytes read fits =
      rw (read, verify, fits) (verify_parts-encoded_hash bs original salt size bytes)

  verify_matches :
      (other encoded : Text)
      → verify scrypt to_int other encoded ≡ true
      → (bs : Bytes) × (utf8 other ≡ ok bs) × ((length bs == 0 || ltb 1024 (length bs)) ≡ false)
  unfolding verify
  verify_matches other encoded verified = elim (Result-cases (utf8 other)) [
    | inr (e, failed) ↦ absurd (false-true (rw (failed, verify) at verified))
    | inl (bs, read) ↦ elim (Bool-cases (length bs == 0 || ltb 1024 (length bs))) [
      | inl unfit ↦ absurd (false-true (rw (read, verify, unfit) at verified))
      | inr fits ↦ (bs, read, fits)
    ]
  ]

  -- Two passwords of fitting length, with the same key.
  pub record IsSameKey (password other : Text) (salt : Bytes) : Type 0 where
    pub original : Bytes
    pub bs : Bytes
    pub read : utf8 password ≡ ok original
    pub read_other : utf8 other ≡ ok bs
    pub fits : (length bs == 0 || ltb 1024 (length bs)) ≡ false
    pub same_key : scrypt bs salt ≡ scrypt original salt

  -- With any salt of 16 bytes, a password verifies against every hash that `hash` makes of it, and any
  -- text verifies against that hash exactly if it has between 1 and 1024 bytes and scrypt derives the
  -- same key from it.
  pub hash-verify :
      (password other : Text) (salt : Bytes) (encoded : Text)
      → length salt ≡ 16
      → All IsByte salt
      → hash scrypt to_int password salt ≡ ok encoded
      → (verify scrypt to_int password encoded ≡ true)
        × ((verify scrypt to_int other encoded ≡ true) ↔ IsSameKey password other salt)
  unfolding hash
  hash-verify password other salt encoded size bytes made =
      let (original, valid, is_encoded) = >>=-eq-ok (validate_password password) _ made in
      let (read, long, short) = validate_password_bounds password original valid in
      subst
        (λ e.
          (verify scrypt to_int password e ≡ true)
          × ((verify scrypt to_int other e ≡ true) ↔ IsSameKey password other salt))
        (ok-injective is_encoded)
        (
          verify-encoded_hash password original original salt size bytes read (ground arith)
              ∙ bytes_eq_refl (scrypt original salt),
          (
            λ verified.
                let (bs, read_other, fits) = verify_matches other _ verified in
                record {
                  original = original;
                  bs = bs;
                  read = read;
                  read_other = read_other;
                  fits = fits;
                  same_key = bytes_eq→eq _ _ (
                      sym (verify-encoded_hash other bs original salt size bytes read_other fits)
                      ∙ verified);
                },
            λ same.
                let keys =
                  same.same_key ∙ ap (λ b. scrypt b salt) (ok-injective (sym same.read ∙ read)) in
                verify-encoded_hash other same.bs original salt size bytes same.read_other same.fits
                ∙ (ap (λ k. bytes_eq k (scrypt original salt)) keys
                    ∙ bytes_eq_refl (scrypt original salt)),
          ),
        )
