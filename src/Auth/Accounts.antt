-- ===== src/Auth/Accounts.antt =====
-- The methods of `AuthStore` (auth/store.py) on accounts. What `secrets` returns during a call (a
-- new identifier, a salt) and the time `now or datetime.now(UTC)` are arguments.
use sih.Common.{
  is_some, Bool, true, false, not, ◌||◌, Option, none, some, List, [], ◌∷◌, ◌++◌, if◌then◌else◌,
  text, ErrorKind,
}
use sih.Common.Bytes.{Bytes, bytes_eq}
use sih.Common.Text.{Text, codes, strip, is_blank}
use sih.Auth.Domain.{
  User, UserRecord, user_from_row, Role, is_administrator, nothing, created_with, reason_is,
}
use sih.Auth.Tables.{find_user, find_username, update_user}
use sih.Auth.Actions.{Action, ◌>>=◌, ◌>>◌, pure, lift, fail_if, get, put, transaction}
use sih.Auth.Checks.{
  Platform, DateTime, aware, normalized_time, validated_reason, normalized_username, unless_none,
  get_user_row, get_user, revoke_user_sessions, require_administrator, protect_last_administrator,
  append_event, clear_account_failures, check_password, reauthenticate_administrator,
}

-- The changes that UPDATE makes to a row.
abbrev pub set_password : Text → Bool → User → User
set_password encoded must_change u = record u {
  password_hash = encoded;
  must_change_password = must_change;
}

abbrev pub set_active : Bool → User → User
set_active active u = record u { active = active }

abbrev pub restore : Text → User → User
restore encoded u = record u {
  password_hash = encoded;
  active = true;
  must_change_password = false;
}

unfoldable pub change_user : Text → (User → User) → Action (Unit {0})
change_user user_id f = do db ← get; put (record db { users = update_user user_id f db.users })

-- INSERT INTO users, and `except sqlite3.IntegrityError`
unfoldable pub insert_user : User → Action (Unit {0})
insert_user u = do
  db ← get
  fail_if (is_some (find_user u.user_id db.users) || is_some (find_username u.username db.users))
      ErrorKind.auth_store_error (text "Username already exists")
  put (record db { users = db.users ++ u ∷ [] })

abbrev pub is_nil : List User → Bool
is_nil [] = true
is_nil (u ∷ us) = false

module _ (P : Platform) where
  open P use {hash_password, verify_password}

  -- `_create_user`
  unfoldable pub add_user :
      (username display_name password : Text)
      → Role
      → DateTime
      → Bool
      → (user_id : Text) → (salt : Bytes) → Action UserRecord
  add_user username display_name password role now must_change user_id salt = do
    normalized ← lift (normalized_username P username)
    fail_if (is_blank display_name) ErrorKind.value_error (text "Display name cannot be empty")
    encoded ← lift (hash_password password salt)
    created ← lift (normalized_time now)
    let row : User = record {
      user_id = user_id;
      username = normalized;
      display_name = strip display_name;
      password_hash = encoded;
      role = role;
      active = true;
      created_at = created;
      must_change_password = must_change;
    }
    insert_user row
    pure (user_from_row row)

  -- `bootstrap_administrator`
  unfoldable pub bootstrap_administrator :
      (username display_name password : Text)
      → DateTime
      → (user_id : Text) → (salt : Bytes) → Action UserRecord
  bootstrap_administrator username display_name password now user_id salt = transaction (do
    db ← get
    fail_if (not (is_nil db.users)) ErrorKind.auth_store_error
        (text "Administrator bootstrap is disabled after first user")
    user ← add_user username display_name password Role.administrator now false user_id salt
    append_event P (some user.user_id) user.user_id "ADMINISTRATOR_BOOTSTRAPPED"
        (aware user.created_at) nothing
    pure user)

  abbrev pub require_actor : Option Text → Action (Unit {0})
  require_actor none = pure tt
  require_actor (some actor_id) = do row ← require_administrator actor_id; pure tt

  -- `create_user`
  unfoldable pub create_user :
      (username display_name password : Text)
      → Role
      → DateTime
      → (actor_id : Option Text) → Bool
      → (user_id : Text) → (salt : Bytes) → Action UserRecord
  create_user username display_name password role now actor_id must_change user_id salt =
      transaction (do
        require_actor actor_id
        user ← add_user username display_name password role now must_change user_id salt
        append_event P actor_id user.user_id "USER_CREATED" (aware user.created_at)
            (created_with role must_change)
        pure user)

  -- `change_password`
  unfoldable pub change_password :
      (user_id current_password new_password : Text) → DateTime → (salt : Bytes) → Action (Unit {0})
  change_password user_id current_password new_password now salt = transaction (do
    row ← get_user_row user_id
    check_password P (some row) row.username current_password now false "password-change"
    fail_if (bytes_eq current_password new_password) ErrorKind.value_error
        (text "New password must differ from your current password")
    encoded ← lift (hash_password new_password salt)
    change_user user_id (set_password encoded false)
    revoke_user_sessions user_id now
    append_event P (some user_id) user_id "PASSWORD_CHANGED" now nothing)

  -- `if not active:` in `set_user_active`
  abbrev pub protect_suspension : Bool → (actor_id user_id : Text) → UserRecord → Action (Unit {0})
  protect_suspension true actor_id user_id target = pure tt
  protect_suspension false actor_id user_id target = do
    fail_if (bytes_eq user_id actor_id) ErrorKind.auth_store_error
        (text "Administrators cannot suspend their own account")
    protect_last_administrator target

  abbrev pub revoke_suspended : Bool → Text → DateTime → Action (Unit {0})
  revoke_suspended true user_id now = pure tt
  revoke_suspended false user_id now = revoke_user_sessions user_id now

  -- `set_user_active`
  unfoldable pub set_user_active :
      (actor_id user_id : Text)
      → (active : Bool) → (current_password reason : Text) → DateTime
      → Action UserRecord
  set_user_active actor_id user_id active current_password reason now = do
    given ← lift (validated_reason reason)
    transaction (do
      reauthenticate_administrator P actor_id current_password now
      target ← get_user user_id
      protect_suspension active actor_id user_id target
      change_user user_id (set_active active)
      revoke_suspended active user_id now
      append_event P (some actor_id) user_id (if active then "USER_ACTIVATED" else "USER_SUSPENDED")
          now (reason_is given)
      get_user user_id)

  -- `reset_password`
  unfoldable pub reset_password :
      (actor_id user_id new_password current_password reason : Text)
      → DateTime
      → (salt : Bytes) → Action UserRecord
  reset_password actor_id user_id new_password current_password reason now salt = do
    given ← lift (validated_reason reason)
    transaction (do
      reauthenticate_administrator P actor_id current_password now
      target ← get_user user_id
      fail_if (bytes_eq user_id actor_id) ErrorKind.auth_store_error
          (text "Use password change to update your own password")
      fail_if (not target.active) ErrorKind.auth_store_error
          (text "Activate the account before resetting its password")
      protect_last_administrator target
      row ← get_user_row user_id
      fail_if (verify_password new_password row.password_hash) ErrorKind.value_error
          (text "New password must differ from the existing password")
      encoded ← lift (hash_password new_password salt)
      change_user user_id (set_password encoded true)
      revoke_user_sessions user_id now
      clear_account_failures P target.username
      append_event P (some actor_id) user_id "PASSWORD_RESET" now (reason_is given)
      get_user user_id)

  -- `revoke_user_sessions`, the method of administrators
  unfoldable pub revoke_sessions_of :
      (actor_id user_id current_password reason : Text) → DateTime → Action (Unit {0})
  revoke_sessions_of actor_id user_id current_password reason now = do
    given ← lift (validated_reason reason)
    transaction (do
      reauthenticate_administrator P actor_id current_password now
      target ← get_user user_id
      revoke_user_sessions user_id now
      append_event P (some actor_id) user_id "USER_SESSIONS_REVOKED" now (reason_is given))

  -- `recover_administrator`, once the account was found
  unfoldable pub recover_row : User → Text → Text → DateTime → Bytes → Action UserRecord
  recover_row row normalized new_password now salt = do
    fail_if (not (is_administrator row.role)) ErrorKind.auth_store_error
        (text "Recovery requires an existing administrator account")
    encoded ← lift (hash_password new_password salt)
    change_user row.user_id (restore encoded)
    revoke_user_sessions row.user_id now
    clear_account_failures P normalized
    append_event P (some (codes "local-operator")) row.user_id "ADMINISTRATOR_RECOVERED" now nothing
    get_user row.user_id

  -- `recover_administrator`
  unfoldable pub recover_administrator :
      (username new_password : Text) → DateTime → (salt : Bytes) → Action UserRecord
  recover_administrator username new_password now salt = do
    normalized ← lift (normalized_username P username)
    transaction (do
      db ← get
      row ← lift (
          unless_none (find_username normalized db.users) ErrorKind.auth_store_error
            (text "Recovery requires an existing administrator account"))
      recover_row row normalized new_password now salt)
