-- ===== src/Auth/Calls/Guessing.antt =====
-- A full bucket of failures: `authenticate` raises whatever the password is.
use sih.Common.{
  ℕ, ◌≤◌, ◌≡◌, ◌∙◌, ap, sym, refl, Bool, true, Option, none, some, String, List, [], ◌∷◌, ◌++◌,
  length, max, ok, raise, text, ErrorKind, arith, le→leb,
}
use sih.Common.Text.{Text}
use sih.Auth.Domain.{User, Failure, throttled_for}
use sih.Auth.Tables.{Database, find_username, failures_of, drop_failures, oldest}
use sih.Auth.Actions.{◌>>=◌, transaction}
use sih.Auth.Checks.{
  Platform, aware, normalized_time, normalized_username, earlier, failure_window,
  account_failure_limit, global_failure_limit, retry_time, latest_retry, retry_after, throttle,
  check_password, append_event, new_event,
}
use sih.Auth.Sessions.{username_or_empty, authenticate}

module _ (P : Platform) where
  retry_time-full :
      (limit : ℕ) (fs : List Failure)
      → 1 ≤ limit
      → limit ≤ length fs
      → (r : ℕ) × (retry_time P limit fs ≡ some r)
  retry_time-full limit [] positive full = absurd (omega arith)
  retry_time-full limit (f ∷ fs) positive full =
      (oldest f.occurred_at fs, rw (le→leb limit (length (f ∷ fs)) full) refl)

  latest_retry-some : (r : ℕ) (o : Option ℕ) → (q : ℕ) × (latest_retry P (some r) o ≡ some q)
  latest_retry-some r none = (r, refl)
  latest_retry-some r (some q) = (max r q, refl)

  -- The database that a throttled attempt leaves.
  abbrev throttled_database : Text → (time cutoff retry : ℕ) → String → Database → Database
  throttled_database username time cutoff retry purpose db = record db {
    failures = drop_failures cutoff db.failures;
    events =
        db.events
        ++ new_event P db.events none username "AUTHENTICATION_THROTTLED" time
            (throttled_for purpose (retry_after P retry time))
          ∷ [];
  }

  check_password-throttled :
      (row : Option User) (username password : Text) (time cutoff retry : ℕ) (is_login : Bool)
      (purpose : String) (db : Database)
      → earlier time failure_window ≡ ok cutoff
      → latest_retry P
          (retry_time P account_failure_limit
            (failures_of (P.account_key username) (drop_failures cutoff db.failures)))
          (retry_time P global_failure_limit (drop_failures cutoff db.failures))
        ≡ some retry
      → check_password P row username password (aware time) is_login purpose db ≡ (
        throttled_database username time cutoff retry purpose db,
        raise ErrorKind.authentication_throttled
            (text "Too many authentication attempts; try again later"),
      )
  unfolding check_password ◌>>=◌ normalized_time throttle append_event
  check_password-throttled row username password time cutoff retry is_login purpose db window full =
      rw window (rw full refl)

  authenticate-full :
      (username password token : Text) (time cutoff retry : ℕ) (db : Database)
      → earlier time failure_window ≡ ok cutoff
      → latest_retry P
          (retry_time P account_failure_limit (
            failures_of
              (P.account_key (username_or_empty P (normalized_username P username)))
              (drop_failures cutoff db.failures)))
          (retry_time P global_failure_limit (drop_failures cutoff db.failures))
        ≡ some retry
      → authenticate P username password (aware time) token db ≡ (
        throttled_database
            (username_or_empty P (normalized_username P username))
            time
            cutoff
            retry
            "login"
            db,
        raise ErrorKind.authentication_throttled
            (text "Too many authentication attempts; try again later"),
      )
  unfolding authenticate transaction ◌>>=◌ normalized_time
  authenticate-full username password token time cutoff retry db window full =
      rw
        (check_password-throttled
          (find_username (username_or_empty P (normalized_username P username)) db.users)
          (username_or_empty P (normalized_username P username)) password time cutoff retry true
          "login" db window full)
        refl

  -- Where an account has five failures that are younger than fifteen minutes and not forgiven,
  -- `authenticate` raises AuthenticationThrottled, adds no failure and opens no session; all passwords
  -- have the same result and leave the same database.
  pub authenticate-throttled :
      (username password other token other_token : Text) (time cutoff : ℕ) (db : Database)
      → earlier time failure_window ≡ ok cutoff
      → account_failure_limit
        ≤ length (
            failures_of
              (P.account_key (username_or_empty P (normalized_username P username)))
              (drop_failures cutoff db.failures))
      → (authenticate P username password (aware time) token db
          ≡ authenticate P username other (aware time) other_token db)
        × (((authenticate P username password (aware time) token db).1
              ≡ raise ErrorKind.authentication_throttled
                  (text "Too many authentication attempts; try again later"))
            × (((authenticate P username password (aware time) token db).0.failures
                  ≡ drop_failures cutoff db.failures)
                × ((authenticate P username password (aware time) token db).0.sessions
                    ≡ db.sessions)))
  authenticate-throttled username password other token other_token time cutoff db window full =
      let (first, account) = retry_time-full account_failure_limit _ (omega arith) full in
      let (retry, latest) =
        latest_retry-some first
          (retry_time P global_failure_limit (drop_failures cutoff db.failures)) in
      let this =
        authenticate-full username password token time cutoff retry db window (rw account latest) in
      let that =
        authenticate-full username other other_token time cutoff retry db window
          (rw account latest) in
      (
        this ∙ sym that,
        (ap (λ r. r.1) this, (ap (λ r. r.0.failures) this, ap (λ r. r.0.sessions) this)),
      )
