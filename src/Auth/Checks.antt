-- ===== src/Auth/Checks.antt =====
-- What the methods of `AuthStore` share: the checks of texts and times, `_check_password`,
-- `_append_event` and the checks of administrators.
mod Values
unfoldable pub use Values.*
use sih.Common.{
  ℕ, ◌+◌, ◌-◌, ◌*◌, ◌/◌, max, Bool, false, not, ◌&&◌, ◌||◌, Option, none, some, String, List, [],
  ◌∷◌, ◌++◌, length, ltb, leb, ◌==◌, if◌then◌else◌, Message, text, ErrorKind, Result, ok, raise,
}
use sih.Common.Bytes.{Bytes}
use sih.Common.Text.{Text, codes, strip, is_space, is_empty}
use sih.Auth.Domain.{
  User, UserRecord, user_from_row, is_administrator, Failure, Details, throttled_for, failed_for,
  EventPayload, AuthEvent,
}
use sih.Auth.Tables.{
  find_user, count_usable, revoke_sessions, drop_failures, failures_of, oldest, clear_key,
  last_event,
}
use sih.Auth.Actions.{Action, ◌>>=◌, ◌>>◌, pure, lift, fail, fail_if, get, put}

abbrev pub next_sequence : Option AuthEvent → ℕ
next_sequence none = 1
next_sequence (some e) = e.payload.sequence + 1

abbrev pub hash_of : Option AuthEvent → Text
hash_of none = no_hash
hash_of (some e) = e.event_hash

abbrev pub unless_none {ℓ} : {A : Type ℓ} → Option A → ErrorKind → Message → Result A
unless_none (some a) k m = ok a
unless_none none k m = raise k m

-- `_get_user_row`
unfoldable pub get_user_row : Text → Action User
get_user_row user_id = do
  db ← get
  lift (
      unless_none (find_user user_id db.users) ErrorKind.user_not_found_error
        (text "User was not found"))

-- `get_user`
unfoldable pub get_user : Text → Action UserRecord
get_user user_id = do row ← get_user_row user_id; pure (user_from_row row)

-- `_revoke_user_sessions`
unfoldable pub revoke_user_sessions : Text → DateTime → Action (Unit {0})
revoke_user_sessions user_id now = do
  time ← lift (normalized_time now)
  db ← get
  put (record db { sessions = revoke_sessions user_id time db.sessions })

-- `_require_administrator`
unfoldable pub require_administrator : Text → Action User
require_administrator actor_id = do
  row ← get_user_row actor_id
  fail_if (not (is_administrator row.role) || (not row.active || row.must_change_password))
      ErrorKind.authorization_error
      (text "An active administrator with a permanent password is required")
  pure row

-- `_protect_last_administrator`
unfoldable pub protect_last_administrator : UserRecord → Action (Unit {0})
protect_last_administrator user = do
  db ← get
  fail_if
      (is_administrator user.role
        && (user.active && not user.must_change_password)
        && leb (count_usable db.users) 1)
      ErrorKind.auth_store_error (text "The last active administrator must remain available")

module _ (P : Platform) where
  open P use {casefold, is_printable, account_key, event_digest, verify_password}

  -- `_normalized_username`
  unfoldable pub normalized_username : Text → Result Text
  normalized_username username =
      let normalized = casefold (strip username) in
      if ltb (length normalized) 3 || ltb 64 (length normalized)
      then raise ErrorKind.value_error (text "Username must contain between 3 and 64 characters")
      else if any_hidden is_printable normalized
      then raise ErrorKind.value_error (text "Username cannot contain spaces or control characters")
      else ok normalized

  -- The event that `_append_event` inserts.
  abbrev pub new_event : List AuthEvent → Option Text → Text → String → ℕ → Details → AuthEvent
  new_event events actor_id subject action time details =
      let payload : EventPayload = record {
        sequence = next_sequence (last_event events);
        actor_id = actor_id;
        subject = subject;
        action = action;
        occurred_at = time;
        details = details;
        previous_hash = hash_of (last_event events);
      } in
      record { payload = payload; event_hash = event_digest payload }

  -- `_append_event`
  unfoldable pub append_event :
      (actor_id : Option Text) (subject : Text) (action : String)
      → DateTime
      → Details
      → Action (Unit {0})
  append_event actor_id subject action now details = do
    time ← lift (normalized_time now)
    db ← get
    put (record db {
      events = db.events ++ new_event db.events actor_id subject action time details ∷ [];
    })

  -- `_clear_account_failures`
  unfoldable pub clear_account_failures : Text → Action (Unit {0})
  clear_account_failures username = do
    db ← get
    put (record db { failures = clear_key (account_key username) db.failures })

  -- `retry_times[0:1]`: the oldest failure of a bucket that is full
  abbrev pub retry_time : ℕ → List Failure → Option ℕ
  retry_time limit [] = none
  retry_time limit (f ∷ fs) =
      if leb limit (length (f ∷ fs)) then some (oldest f.occurred_at fs) else none

  -- `max(retry_times)`, if there are any
  abbrev pub latest_retry : Option ℕ → Option ℕ → Option ℕ
  latest_retry none none = none
  latest_retry none (some b) = some b
  latest_retry (some a) none = some a
  latest_retry (some a) (some b) = some (max a b)

  -- `max(1, math.ceil((retry + self.FAILURE_WINDOW - now).total_seconds()))`
  unfoldable pub retry_after : ℕ → ℕ → ℕ
  retry_after retry time = max 1 ((retry + failure_window - time + (second - 1)) / second)

  -- `_check_password`, where a bucket is full
  unfoldable pub throttle : Text → DateTime → ℕ → ℕ → String → Action (Unit {0})
  throttle username now time retry purpose = do
    append_event none username "AUTHENTICATION_THROTTLED" now
        (throttled_for purpose (retry_after retry time))
    fail ErrorKind.authentication_throttled
        (text "Too many authentication attempts; try again later")

  abbrev pub encoded_of : Option User → Text
  encoded_of none = decoy_hash
  encoded_of (some row) = row.password_hash

  abbrev pub is_active : Option User → Bool
  is_active none = false
  is_active (some row) = row.active

  abbrev pub failure_action : Bool → String
  failure_action is_login = if is_login then "LOGIN_FAILED" else "REAUTHENTICATION_FAILED"

  -- `_check_password`, where the password is not accepted
  unfoldable pub reject : Text → DateTime → ℕ → Bool → String → Action (Unit {0})
  reject username now time is_login purpose = do
    db ← get
    put (record db {
      failures =
          db.failures ++ record { account_key = account_key username; occurred_at = time } ∷ [];
    })
    append_event none username (failure_action is_login) now (failed_for purpose)
    fail ErrorKind.authentication_error (text "Invalid username or password")

  -- `_check_password`, where no bucket is full
  unfoldable pub judge :
      Option User → Text → Text → DateTime → ℕ → Bool → String → Action (Unit {0})
  judge row username password now time is_login purpose =
      if is_active row && verify_password password (encoded_of row)
      then clear_account_failures username
      else reject username now time is_login purpose

  abbrev pub throttle_or_judge :
      Option ℕ → Option User → Text → Text → DateTime → ℕ → Bool → String → Action (Unit {0})
  throttle_or_judge (some retry) row username password now time is_login purpose =
      throttle username now time retry purpose
  throttle_or_judge none row username password now time is_login purpose =
      judge row username password now time is_login purpose

  -- `_check_password`; `is_login` is `purpose == "login"`
  unfoldable pub check_password :
      Option User
      → (username password : Text) → DateTime
      → (is_login : Bool) (purpose : String) → Action (Unit {0})
  check_password row username password now is_login purpose = do
    time ← lift (normalized_time now)
    cutoff ← lift (earlier time failure_window)
    before ← get
    put (record before { failures = drop_failures cutoff before.failures })
    db ← get
    throttle_or_judge
        (latest_retry
          (retry_time account_failure_limit (failures_of (account_key username) db.failures))
          (retry_time global_failure_limit db.failures))
        row username password now time is_login purpose

  -- `_reauthenticate_administrator`
  unfoldable pub reauthenticate_administrator :
      (actor_id current_password : Text) → DateTime → Action (Unit {0})
  reauthenticate_administrator actor_id current_password now = do
    row ← require_administrator actor_id
    check_password (some row) row.username current_password now false "administrator-action"
