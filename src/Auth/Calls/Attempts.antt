-- ===== src/Auth/Calls/Attempts.antt =====
-- A login challenge can be answered once.
use sih.Common.{
  ℕ, ◌≡◌, ◌∙◌, ap, refl, inl, inr, Bool, true, false, ◌||◌, none, some, List, [], ◌∷◌, length, ltb,
  if◌then◌else◌, Result, ok, raise, text, ErrorKind, Bool-cases,
}
use sih.Common.Bytes.{bytes_eq}
use sih.Common.Text.{Text, is_empty}
use sih.Auth.Domain.{Challenge}
use sih.Auth.Texts.{without_spaces}
use sih.Auth.Tables.{Database, find_challenge, delete_challenge}
use sih.Auth.Actions.{◌>>=◌, transaction, pure}
use sih.Auth.Checks.{Platform, DateTime, aware}
use sih.Auth.Challenges.{
  is_ascii, challenge_failed, compare_answer, is_answered, take_challenge, consume_login_challenge,
}

find_challenge-delete_challenge :
    (hash : Text) (cs : List Challenge) → find_challenge hash (delete_challenge hash cs) ≡ none
unfolding find_challenge delete_challenge
find_challenge-delete_challenge hash [] = refl
find_challenge-delete_challenge hash (c ∷ cs) = elim (Bool-cases (bytes_eq c.challenge_hash hash)) [
  | inl here ↦ rw here (find_challenge-delete_challenge hash cs)
  | inr other ↦ rw (other, other) (find_challenge-delete_challenge hash cs)
]

abbrev pub failed : Database → Database × Result (Unit {0})
failed db = (db, raise ErrorKind.login_challenge_error (text "Login verification failed"))

module _ (P : Platform) where
  -- A challenge that is not there fails.
  consume-none :
      (challenge_id answer : Text) (now : DateTime) (db : Database)
      → find_challenge (P.token_hash challenge_id) db.challenges ≡ none
      → consume_login_challenge P challenge_id answer now db ≡ failed db
  unfolding consume_login_challenge ◌>>=◌ transaction take_challenge
  consume-none challenge_id answer now db missing =
      elim (Bool-cases (is_empty challenge_id || ltb 256 (length challenge_id))) [
        | inl malformed ↦ rw malformed refl
        | inr fine ↦ rw (fine, missing) refl
      ]

  -- What an answer leaves: the challenge is deleted, whether the answer is right or wrong.
  take-deleted :
      (c : Challenge) (answer : Text) (time : ℕ) (db : Database)
      → is_ascii c.answer ≡ true
      → is_ascii (P.upper (without_spaces answer)) ≡ true
      → (valid : Bool) × (is_answered P c answer (aware time) db ≡ (db, ok valid))
  unfolding compare_answer ◌>>=◌
  take-deleted c answer time db stored given = elim (Bool-cases (ltb time c.expires_at)) [
    | inl open_still ↦ (
      bytes_eq c.answer (P.upper (without_spaces answer)),
      rw (is_answered, open_still, compare_answer, stored, given) refl,
    )
    | inr late ↦ (false, rw (is_answered, late) refl)
  ]

  concluded :
      (valid : Bool) (after : Database)
      → ((if valid then pure tt else challenge_failed) after).0 ≡ after
  concluded true after = refl
  concluded false after = refl

  consume-deleted :
      (challenge_id answer : Text) (time : ℕ) (db : Database) (c : Challenge)
      → is_empty challenge_id || ltb 256 (length challenge_id) ≡ false
      → find_challenge (P.token_hash challenge_id) db.challenges ≡ some c
      → is_ascii c.answer ≡ true
      → is_ascii (P.upper (without_spaces answer)) ≡ true
      → (consume_login_challenge P challenge_id answer (aware time) db).0
        ≡ record db { challenges = delete_challenge (P.token_hash challenge_id) db.challenges }
  unfolding consume_login_challenge ◌>>=◌ transaction take_challenge
  consume-deleted challenge_id answer time db c fine here stored given =
      let (valid, answered) =
        take-deleted c answer time
          (record db { challenges = delete_challenge (P.token_hash challenge_id) db.challenges })
          stored given in
      rw (fine, here, answered) (concluded valid _)

  -- Once a challenge with an ASCII answer was answered with an ASCII text, rightly or wrongly, in time
  -- or late: every further answer to it fails, and changes nothing.
  pub consume_login_challenge-again :
      (challenge_id answer second_answer : Text) (time : ℕ) (now : DateTime) (db : Database)
      (c : Challenge)
      → is_empty challenge_id || ltb 256 (length challenge_id) ≡ false
      → find_challenge (P.token_hash challenge_id) db.challenges ≡ some c
      → is_ascii c.answer ≡ true
      → is_ascii (P.upper (without_spaces answer)) ≡ true
      → consume_login_challenge P challenge_id second_answer now
          (consume_login_challenge P challenge_id answer (aware time) db).0
        ≡ failed (consume_login_challenge P challenge_id answer (aware time) db).0
  consume_login_challenge-again challenge_id answer second_answer time now db c fine here stored
        given =
      consume-none challenge_id second_answer now _ (
        ap (λ d. find_challenge (P.token_hash challenge_id) d.challenges)
          (consume-deleted challenge_id answer time db c fine here stored given)
        ∙ find_challenge-delete_challenge (P.token_hash challenge_id) db.challenges)
