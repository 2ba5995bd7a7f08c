-- ===== src/Auth/Sessions.antt =====
-- The methods of `AuthStore` (auth/store.py) on sessions. A new token, which `secrets` returns during
-- the call, and the time `now or datetime.now(UTC)` are arguments.
use sih.Common.{
  is_some, ℕ, ◌/◌, Bool, true, not, ◌&&◌, ◌||◌, Option, none, some, List, [], ◌∷◌, ◌++◌, length,
  ltb, leb, if◌then◌else◌, text, ErrorKind, Result, ok, err,
}
use sih.Common.Text.{Text, is_empty}
use sih.Auth.Domain.{
  User, UserRecord, user_from_row, Session, AuthenticatedSession, nothing, login_with,
}
use sih.Auth.Tables.{find_user, find_username, find_session, is_open, revoke_token, touch_session}
use sih.Auth.Actions.{Action, ◌>>=◌, ◌>>◌, pure, lift, fail, fail_if, get, put, transaction}
use sih.Auth.Checks.{
  Platform, DateTime, second, normalized_time, later, earlier, normalized_username, get_user,
  revoke_user_sessions, append_event, check_password,
}

-- `not token or len(token) > 512`
abbrev pub is_malformed : Text → Bool
is_malformed token = is_empty token || ltb 512 (length token)

abbrev pub invalid_session {ℓ} : {A : Type ℓ} → Action A
invalid_session = fail ErrorKind.authentication_error (text "Session is invalid or expired")

-- INSERT INTO sessions
unfoldable pub insert_session : Session → Action (Unit {0})
insert_session s = do
  db ← get
  fail_if (is_some (find_session s.token_hash db.sessions)) ErrorKind.integrity_error (text "")
  put (record db { sessions = db.sessions ++ s ∷ [] })

-- The WHERE of `resolve_session` on the joined rows; `cutoff` is `current_time - idle_timeout`.
unfoldable pub is_live : Session → User → (time cutoff : ℕ) → Bool
is_live s u time cutoff =
    is_open s
    && (ltb time s.expires_at && (leb s.created_at time && (ltb cutoff s.last_seen_at && u.active)))

-- SELECT users.* FROM sessions JOIN users ON users.user_id = sessions.user_id WHERE …
abbrev pub join_user : Option Session → List User → Option (Session × User)
join_user none users = none
join_user (some s) users = elim (find_user s.user_id users) [ none ↦ none | some u ↦ some (s, u) ]

abbrev pub live_user : Option (Session × User) → (time cutoff : ℕ) → Option User
live_user none time cutoff = none
live_user (some (s, u)) time cutoff = if is_live s u time cutoff then some u else none

module _ (P : Platform) where
  open P use {token_hash, session_lifetime, idle_timeout}

  -- `_normalized_username`, or "" where it raises ValueError
  abbrev pub username_or_empty : Result Text → Text
  username_or_empty (ok normalized) = normalized
  username_or_empty (err e) = []

  -- `authenticate`, once the password was accepted
  unfoldable pub open_session : Option User → Text → DateTime → ℕ → Action AuthenticatedSession
  open_session none token now time =
      fail ErrorKind.authentication_error (text "Invalid username or password")
  open_session (some row) token now time = do
    expires ← lift (later time session_lifetime)
    let session : Session = record {
      token_hash = token_hash token;
      user_id = row.user_id;
      created_at = time;
      expires_at = expires;
      revoked_at = none;
      last_seen_at = time;
    }
    insert_session session
    append_event P (some row.user_id) row.user_id "LOGIN_SUCCEEDED" now
        (login_with row.must_change_password)
    pure (record {
      token = token;
      expires_at = expires;
      user = user_from_row row;
      idle_timeout_seconds = idle_timeout / second;
    })

  -- `authenticate`
  unfoldable pub authenticate :
      (username password : Text) → DateTime → (token : Text) → Action AuthenticatedSession
  authenticate username password now token = do
    let normalized = username_or_empty (normalized_username P username)
    time ← lift (normalized_time now)
    transaction (do
      db ← get
      let row = find_username normalized db.users
      check_password P row normalized password now true "login"
      open_session row token now time)

  -- `resolve_session`, with the row that was selected
  unfoldable pub admit : Option User → Text → ℕ → Bool → Action UserRecord
  admit none token time allow_password_change = invalid_session
  admit (some row) token time allow_password_change = do
    fail_if (row.must_change_password && not allow_password_change)
        ErrorKind.password_change_required (text "Change your temporary password before continuing")
    db ← get
    put (record db { sessions = touch_session (token_hash token) time db.sessions })
    pure (user_from_row row)

  -- `resolve_session`
  unfoldable pub resolve_session : (token : Text) → DateTime → Bool → Action UserRecord
  resolve_session token now allow_password_change = do
    fail_if (is_malformed token) ErrorKind.authentication_error
        (text "Session is invalid or expired")
    time ← lift (normalized_time now)
    transaction (do
      cutoff ← lift (earlier time idle_timeout)
      db ← get
      admit
          (live_user (join_user (find_session (token_hash token) db.sessions) db.users) time cutoff)
          token time allow_password_change)

  -- `revoke_session`, with the row that was selected
  unfoldable pub revoke_row : Option Session → Text → DateTime → ℕ → Action (Unit {0})
  revoke_row none token now time = invalid_session
  revoke_row (some s) token now time = if not (is_open s) then pure tt else (do
    db ← get
    put (record db { sessions = revoke_token (token_hash token) time db.sessions })
    append_event P (some s.user_id) s.user_id "SESSION_REVOKED" now nothing)

  -- `revoke_session`
  unfoldable pub revoke_session : (token : Text) → DateTime → Action (Unit {0})
  revoke_session token now = do
    fail_if (is_malformed token) ErrorKind.authentication_error
        (text "Session is invalid or expired")
    time ← lift (normalized_time now)
    transaction
        (do db ← get; revoke_row (find_session (token_hash token) db.sessions) token now time)

  -- `revoke_all_sessions`
  unfoldable pub revoke_all_sessions : (user_id : Text) → DateTime → Action (Unit {0})
  revoke_all_sessions user_id now = transaction (do
    user ← get_user user_id
    revoke_user_sessions user_id now
    append_event P (some user_id) user_id "ALL_SESSIONS_REVOKED" now nothing)
