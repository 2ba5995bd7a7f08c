-- ===== src/Auth/Tables.antt =====
-- The tables of auth/store.py and the statements on them. A user is found, and updated, by its
-- primary key: there is one row at most. The events stand in the order of their primary key.
use sih.Common.{
  is_some, ℕ, ◌+◌, Bool, not, ◌&&◌, Option, none, some, List, [], ◌∷◌, ltb, leb, if◌then◌else◌, min,
}
use sih.Common.Bytes.{bytes_eq}
use sih.Common.Text.{Text, lower}
use sih.Auth.Domain.{User, is_administrator, Session, Failure, Challenge, AuthEvent}

pub record Database : Type 0 where
  pub users : List User
  pub sessions : List Session
  pub failures : List Failure
  pub challenges : List Challenge
  pub events : List AuthEvent

-- SELECT * FROM users WHERE user_id = ?
unfoldable pub find_user : Text → List User → Option User
find_user user_id [] = none
find_user user_id (u ∷ us) =
    let later = find_user user_id us in if bytes_eq u.user_id user_id then some u else later

-- SELECT * FROM users WHERE username = ?, a column that ignores the case of ASCII letters
unfoldable pub find_username : Text → List User → Option User
find_username username [] = none
find_username username (u ∷ us) =
    let later = find_username username us in
    if bytes_eq (lower u.username) (lower username) then some u else later

-- UPDATE users SET … WHERE user_id = ?
unfoldable pub update_user : Text → (User → User) → List User → List User
update_user user_id f [] = []
update_user user_id f (u ∷ us) =
    let later = update_user user_id f us in
    if bytes_eq u.user_id user_id then f u ∷ us else u ∷ later

-- role = 'administrator' AND active = 1 AND must_change_password = 0
abbrev pub is_usable : User → Bool
is_usable u = is_administrator u.role && (u.active && not u.must_change_password)

-- SELECT COUNT(*) FROM users WHERE the row is usable
unfoldable pub count_usable : List User → ℕ
count_usable [] = 0
count_usable (u ∷ us) = (if is_usable u then 1 else 0) + count_usable us

-- SELECT * FROM sessions WHERE token_hash = ?
unfoldable pub find_session : Text → List Session → Option Session
find_session token_hash [] = none
find_session token_hash (s ∷ ss) =
    let later = find_session token_hash ss in
    if bytes_eq s.token_hash token_hash then some s else later

-- revoked_at IS NULL
abbrev pub is_open : Session → Bool
is_open s = not (is_some s.revoked_at)

-- UPDATE sessions SET revoked_at = ? WHERE token_hash = ? AND revoked_at IS NULL
unfoldable pub revoke_token : Text → ℕ → List Session → List Session
revoke_token token_hash time [] = []
revoke_token token_hash time (s ∷ ss) =
    (if bytes_eq s.token_hash token_hash && is_open s
      then record s { revoked_at = some time }
      else s)
    ∷ revoke_token token_hash time ss

-- UPDATE sessions SET revoked_at = ? WHERE user_id = ? AND revoked_at IS NULL
unfoldable pub revoke_sessions : Text → ℕ → List Session → List Session
revoke_sessions user_id time [] = []
revoke_sessions user_id time (s ∷ ss) =
    (if bytes_eq s.user_id user_id && is_open s then record s { revoked_at = some time } else s)
    ∷ revoke_sessions user_id time ss

-- UPDATE sessions SET last_seen_at = MAX(last_seen_at, ?) WHERE token_hash = ?
unfoldable pub touch_session : Text → ℕ → List Session → List Session
touch_session token_hash time [] = []
touch_session token_hash time (s ∷ ss) =
    (if bytes_eq s.token_hash token_hash
      then record s { last_seen_at = if ltb s.last_seen_at time then time else s.last_seen_at }
      else s)
    ∷ touch_session token_hash time ss

-- DELETE FROM auth_failures WHERE occurred_at <= ?
unfoldable pub drop_failures : ℕ → List Failure → List Failure
drop_failures cutoff [] = []
drop_failures cutoff (f ∷ fs) =
    let later = drop_failures cutoff fs in if leb f.occurred_at cutoff then later else f ∷ later

-- `[failure for failure in failures if failure["account_key"] == key]`
unfoldable pub failures_of : Text → List Failure → List Failure
failures_of key [] = []
failures_of key (f ∷ fs) =
    let later = failures_of key fs in if bytes_eq f.account_key key then f ∷ later else later

-- The first `occurred_at` in ORDER BY occurred_at, of failures with one at `first`.
unfoldable pub oldest : ℕ → List Failure → ℕ
oldest first [] = first
oldest first (f ∷ fs) = oldest (min first f.occurred_at) fs

-- UPDATE auth_failures SET account_key = '' WHERE account_key = ?
unfoldable pub clear_key : Text → List Failure → List Failure
clear_key key [] = []
clear_key key (f ∷ fs) =
    (if bytes_eq f.account_key key then record f { account_key = [] } else f) ∷ clear_key key fs

-- DELETE FROM login_challenges WHERE expires_at <= ?
unfoldable pub drop_expired : ℕ → List Challenge → List Challenge
drop_expired time [] = []
drop_expired time (c ∷ cs) =
    let later = drop_expired time cs in if leb c.expires_at time then later else c ∷ later

-- SELECT answer, expires_at FROM login_challenges WHERE challenge_hash = ?
unfoldable pub find_challenge : Text → List Challenge → Option Challenge
find_challenge hash [] = none
find_challenge hash (c ∷ cs) =
    let later = find_challenge hash cs in if bytes_eq c.challenge_hash hash then some c else later

-- DELETE FROM login_challenges WHERE challenge_hash = ?
unfoldable pub delete_challenge : Text → List Challenge → List Challenge
delete_challenge hash [] = []
delete_challenge hash (c ∷ cs) =
    let later = delete_challenge hash cs in
    if bytes_eq c.challenge_hash hash then later else c ∷ later

-- SELECT … FROM auth_events ORDER BY sequence DESC LIMIT 1
unfoldable pub last_event : List AuthEvent → Option AuthEvent
last_event [] = none
last_event (e ∷ []) = some e
last_event (e ∷ f ∷ es) = last_event (f ∷ es)
