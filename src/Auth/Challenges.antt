-- ===== src/Auth/Challenges.antt =====
-- The login challenges of `AuthStore` (auth/store.py). The token and the answer that `secrets` draws
-- are arguments.
use sih.Common.{
  is_some, ℕ, Bool, true, false, not, ◌&&◌, ◌||◌, Option, none, some, [], ◌∷◌, ◌++◌, length, ltb,
  leb, ◌*◌, if◌then◌else◌, text, ErrorKind,
}
use sih.Common.Bytes.{bytes_eq}
use sih.Common.Text.{Text, is_empty}
use sih.Auth.Domain.{Challenge, LoginChallenge}
use sih.Auth.Texts.{without_spaces}
use sih.Auth.Tables.{drop_expired, find_challenge, delete_challenge}
use sih.Auth.Actions.{Action, ◌>>=◌, ◌>>◌, pure, lift, fail, fail_if, get, put, transaction}
use sih.Auth.Checks.{Platform, DateTime, naive, aware, minute, normalized_time, later}

abbrev pub max_outstanding_challenges : ℕ
max_outstanding_challenges = 256

-- `str.isascii`
unfoldable pub is_ascii : Text → Bool
is_ascii [] = true
is_ascii (c ∷ s) = ltb c 128 && is_ascii s

abbrev pub challenge_failed : Action (Unit {0})
challenge_failed = fail ErrorKind.login_challenge_error (text "Login verification failed")

module _ (P : Platform) where
  open P use {token_hash, upper}

  -- `issue_login_challenge`
  unfoldable pub issue_login_challenge : DateTime → (token answer : Text) → Action LoginChallenge
  issue_login_challenge now token answer = do
    time ← lift (normalized_time now)
    expires ← lift (later time (2 * minute))
    transaction (do
      before ← get
      put (record before { challenges = drop_expired time before.challenges })
      db ← get
      fail_if (leb max_outstanding_challenges (length db.challenges)) ErrorKind.auth_store_error
          (text "Login verification is temporarily unavailable")
      fail_if (is_some (find_challenge (token_hash token) db.challenges)) ErrorKind.integrity_error
          (text "")
      let row : Challenge = record {
        challenge_hash = token_hash token;
        answer = answer;
        expires_at = expires;
      }
      put (record db { challenges = db.challenges ++ row ∷ [] })
      pure (record { challenge_id = token; answer = answer; expires_at = expires }))

  -- `hmac.compare_digest` on texts, which raises TypeError on one that is not ASCII
  unfoldable pub compare_answer : (expected given : Text) → Action Bool
  compare_answer expected given = do
    fail_if (not (is_ascii expected && is_ascii given)) ErrorKind.type_error
        (text "comparing strings with non-ASCII characters is not supported")
    pure (bytes_eq expected given)

  -- `_parsed_time(row["expires_at"]) > current_time and compare_digest(…)`
  abbrev pub is_answered : Challenge → Text → DateTime → Action Bool
  is_answered c answer naive =
      fail ErrorKind.type_error (text "can't compare offset-naive and offset-aware datetimes")
  is_answered c answer (aware time) = elim (ltb time c.expires_at) [
    | false ↦ pure false
    | true ↦ compare_answer c.answer (upper (without_spaces answer))
  ]

  -- The transaction of `consume_login_challenge`: whether the answer is valid.
  unfoldable pub take_challenge : Option Challenge → Text → Text → DateTime → Action Bool
  take_challenge none hash answer now = pure false
  take_challenge (some c) hash answer now = do
    db ← get
    put (record db { challenges = delete_challenge hash db.challenges })
    is_answered c answer now

  -- `consume_login_challenge`
  unfoldable pub consume_login_challenge :
      (challenge_id answer : Text) → DateTime → Action (Unit {0})
  consume_login_challenge challenge_id answer now = do
    fail_if (is_empty challenge_id || ltb 256 (length challenge_id)) ErrorKind.login_challenge_error
        (text "Login verification failed")
    valid ← transaction (do
      db ← get
      take_challenge (find_challenge (token_hash challenge_id) db.challenges)
          (token_hash challenge_id) answer now)
    if valid then pure tt else challenge_failed
