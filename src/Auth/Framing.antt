-- ===== src/Auth/Framing.antt =====
-- What a property of the database has to bear, and that every shared step of `AuthStore` then keeps
-- it, on every way out.
pub mod Accounts
pub mod Changes
pub mod Sessions
use sih.Common.{
  some-none, ℕ, ◌+◌, ◌≤◌, ◌<◌, ◌≡◌, ◌⊎◌, inl, inr, refl, sym, Bool, true, false, not, ◌&&◌, ◌||◌,
  Option, none, some, String, List, [], ◌∷◌, ◌++◌, length, ltb, leb, if◌then◌else◌, Message,
  ErrorKind, Result, ok, err, arith, Bool-cases, Option-cases,
}
use sih.Common.Text.{Text}
use sih.Auth.Domain.{
  is_administrator, User, UserRecord, user_from_row, Session, Failure, Challenge, Details,
  AuthEvent,
}
use sih.Auth.Tables.{
  Database, find_user, update_user, count_usable, drop_failures, failures_of, oldest, clear_key,
  revoke_sessions,
}
use sih.Auth.Actions.{Action, pure, lift, fail, get, put}
use sih.Auth.Actions.Rules.{
  Leaves, Leaves-bind, Leaves-bind-lift, Leaves-bind-get, Leaves-bind-put, Leaves-fail_if,
  Leaves-lift,
}
use sih.Auth.Lookups.{Leaves-bind-row}
use sih.Auth.Checks.{
  Platform, DateTime, normalized_time, earlier, failure_window, account_failure_limit,
  global_failure_limit, unless_none, get_user_row, get_user, revoke_user_sessions,
  require_administrator, new_event, append_event, clear_account_failures, retry_time, latest_retry,
  throttle, judge, reject, throttle_or_judge, check_password, reauthenticate_administrator,
  encoded_of, is_active,
}

-- A change of one account that leaves a usable administrator, if there was one.
pub record IsSafeChange (db : Database) (user_id : Text) (f : User → User) : Type 0 where
  pub remains : 1 ≤ count_usable db.users → 1 ≤ count_usable (update_user user_id f db.users)

module _ (P : Platform) where
  -- What the writes of the store do, one by one: a property that all of them keep.
  pub record IsFramed (I : Database → Type 0) : Type 0 where
    pub on_sessions : (db : Database) (ss : List Session) → I db → I (record db { sessions = ss })
    pub on_challenges :
        (db : Database) (cs : List Challenge) → I db → I (record db { challenges = cs })
    pub on_event :
        (db : Database) (actor_id : Option Text) (subject : Text) (action : String) (time : ℕ)
        (details : Details)
        → I db
        → I (record db {
          events = db.events ++ new_event P db.events actor_id subject action time details ∷ [];
        })
    pub on_drop :
        (db : Database) (cutoff : ℕ)
        → I db
        → I (record db { failures = drop_failures cutoff db.failures })
    pub on_clear :
        (db : Database) (username : Text)
        → I db
        → I (record db { failures = clear_key (P.account_key username) db.failures })
    pub on_failure :
        (db : Database) (username : Text) (time : ℕ)
        → length (failures_of (P.account_key username) db.failures) < 5
        → length db.failures < 50
        → I db
        → I (record db {
          failures =
              db.failures
              ++ record { account_key = P.account_key username; occurred_at = time } ∷ [];
        })
    pub on_insert : (db : Database) (u : User) → I db → I (record db { users = db.users ++ u ∷ [] })
    pub on_change :
        (db : Database) (user_id : Text) (f : User → User)
        → IsSafeChange db user_id f
        → I db
        → I (record db { users = update_user user_id f db.users })

  module _ {I : Database → Type 0} (framed : IsFramed I) where
    abbrev pub Keeps {ℓ} : {A : Type ℓ} → Action A → Type 0
    Keeps m = (db : Database) → I db → Leaves (λ a after. I after) I (m db)

    pub append_event-Keeps :
        (actor_id : Option Text) (subject : Text) (action : String) (now : DateTime)
        (details : Details)
        → Keeps (append_event P actor_id subject action now details)
    unfolding append_event
    append_event-Keeps actor_id subject action now details db h =
        Leaves-bind-lift (normalized_time now) _ db h λ time _.
          Leaves-bind-get _ db
            (record { outcome = framed.on_event db actor_id subject action time details h })

    pub revoke_user_sessions-Keeps :
        (user_id : Text) (now : DateTime) → Keeps (revoke_user_sessions user_id now)
    unfolding revoke_user_sessions
    revoke_user_sessions-Keeps user_id now db h =
        Leaves-bind-lift (normalized_time now) _ db h λ time _.
          Leaves-bind-get _ db (record {
            outcome = framed.on_sessions db (revoke_sessions user_id time db.sessions) h;
          })

    pub clear_account_failures-Keeps : (username : Text) → Keeps (clear_account_failures P username)
    unfolding clear_account_failures
    clear_account_failures-Keeps username db h =
        Leaves-bind-get _ db (record { outcome = framed.on_clear db username h })

    throttle-Keeps :
        (username : Text) (now : DateTime) (time retry : ℕ) (purpose : String)
        → Keeps (throttle P username now time retry purpose)
    unfolding throttle
    throttle-Keeps username now time retry purpose db h =
        Leaves-bind _ _ db (append_event-Keeps none username _ now _ db h)
          λ done after kept. record { outcome = kept }

    reject-Keeps :
        (username : Text) (now : DateTime) (time : ℕ) (is_login : Bool) (purpose : String)
        (db : Database)
        → length (failures_of (P.account_key username) db.failures) < 5
        → length db.failures < 50
        → I db
        → Leaves (λ a after. I after) I (reject P username now time is_login purpose db)
    unfolding reject
    reject-Keeps username now time is_login purpose db few total h = Leaves-bind-get _ db (
        Leaves-bind-put _ _ db (
          Leaves-bind _ _ _
            (append_event-Keeps none username _ now _ _
              (framed.on_failure db username time few total h))
            λ done after kept. record { outcome = kept }))

    -- A bucket that asks for no delay is not full.
    retry_time-none :
        (limit : ℕ) (fs : List Failure)
        → retry_time P limit fs ≡ none
        → 0 < limit
        → length fs < limit
    retry_time-none limit [] h positive = omega arith
    retry_time-none limit (f ∷ fs) h positive = elim (Bool-cases (leb limit (length (f ∷ fs)))) [
      | inl full ↦ absurd (some-none (rw full at h))
      | inr room ↦ ground arith
    ]

    latest_retry-none : (a b : Option ℕ) → latest_retry P a b ≡ none → (a ≡ none) × (b ≡ none)
    latest_retry-none none none h = (refl, refl)
    latest_retry-none none (some b) h = cc
    latest_retry-none (some a) none h = cc
    latest_retry-none (some a) (some b) h = cc

    -- `_check_password`: a failure is only recorded where neither bucket is full.
    judge-Keeps :
        (row : Option User) (username password : Text) (now : DateTime) (time : ℕ) (is_login : Bool)
        (purpose : String) (db : Database)
        → length (failures_of (P.account_key username) db.failures) < 5
        → length db.failures < 50
        → I db
        → Leaves (λ a after. I after) I (judge P row username password now time is_login purpose db)
    unfolding judge
    judge-Keeps row username password now time is_login purpose db few total h =
        elim (Bool-cases (is_active P row && P.verify_password password (encoded_of P row))) [
          | inl accepted ↦ rw (judge, accepted) (clear_account_failures-Keeps username db h)
          | inr refused ↦
              rw (judge, refused) (reject-Keeps username now time is_login purpose db few total h)
        ]

    throttle_or_judge-Keeps :
        (retry : Option ℕ) (row : Option User) (username password : Text) (now : DateTime)
        (time : ℕ) (is_login : Bool) (purpose : String) (db : Database)
        → (retry ≡ none
            → (length (failures_of (P.account_key username) db.failures) < 5)
              × (length db.failures < 50))
        → I db
        → Leaves
            (λ a after. I after)
            I
            (throttle_or_judge P retry row username password now time is_login purpose db)
    throttle_or_judge-Keeps none row username password now time is_login purpose db room h =
        judge-Keeps row username password now time is_login purpose db (room refl).0 (room refl).1 h
    throttle_or_judge-Keeps (some retry) row username password now time is_login purpose db room h =
        throttle-Keeps username now time retry purpose db h

    pub check_password-Keeps :
        (row : Option User) (username password : Text) (now : DateTime) (is_login : Bool)
        (purpose : String)
        → Keeps (check_password P row username password now is_login purpose)
    unfolding check_password
    check_password-Keeps row username password now is_login purpose db h =
        Leaves-bind-lift (normalized_time now) _ db h λ time _.
          Leaves-bind-lift (earlier time failure_window) _ db h λ cutoff _. Leaves-bind-get _ db (
            Leaves-bind-put _ _ db (
              Leaves-bind-get _ _ (
                throttle_or_judge-Keeps _ row username password now time is_login purpose _
                  (λ idle.
                    let (account, all) = latest_retry-none _ _ idle in
                    (
                      retry_time-none _ _ account (omega arith),
                      retry_time-none _ _ all (omega arith),
                    ))
                  (framed.on_drop db cutoff h))))

    pub require_administrator-Keeps : (actor_id : Text) → Keeps (require_administrator actor_id)
    unfolding require_administrator
    require_administrator-Keeps actor_id db h = Leaves-bind-row actor_id _ db h λ row _.
        Leaves-fail_if
          (not (is_administrator row.role) || (not row.active || row.must_change_password)) _ _ _ db
          (λ refused. h) λ allowed. record { outcome = h }

    pub get_user-Keeps : (user_id : Text) → Keeps (get_user user_id)
    unfolding get_user
    get_user-Keeps user_id db h = Leaves-bind-row user_id _ db h λ row _. record { outcome = h }

    pub reauthenticate_administrator-Keeps :
        (actor_id current_password : Text) (now : DateTime)
        → Keeps (reauthenticate_administrator P actor_id current_password now)
    unfolding reauthenticate_administrator
    reauthenticate_administrator-Keeps actor_id current_password now db h =
        Leaves-bind _ _ db (require_administrator-Keeps actor_id db h) λ row after kept.
          check_password-Keeps (some row) row.username current_password now false _ after kept
