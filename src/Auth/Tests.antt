-- ===== src/Auth/Tests.antt =====
-- Witnesses of the theorems on `AuthStore`, with small functions in place of `hashlib` and the tables
-- of characters.
use sih.Common.{
  ℕ, ◌*◌, ◌+◌, ◌≡◌, ◌≢◌, ◌↔◌, refl, true, false, none, [], ◌-◌, ◌∷◌, ◌++◌, length, arith, ok, raise,
  text, ErrorKind,
}
use sih.Common.Bytes.{bytes_eq}
use sih.Common.Text.{Text, codes, strip, lstrip, rstrip, is_space, is_blank}
use sih.Auth.Domain.{User, UserRecord, user_from_row, Role, Session, Failure}
use sih.Auth.Tables.{
  Database, find_user, find_username, update_user, count_usable, find_session, revoke_sessions,
  touch_session, drop_failures, failures_of, clear_key, drop_expired, find_challenge, last_event,
}
use sih.Auth.Texts.{without_spaces}
use sih.Auth.Actions.{◌>>=◌, transaction}
use sih.Auth.Checks.{
  normalized_username, any_hidden, normalized_time, later, earlier, validated_reason, append_event,
  clear_account_failures, check_password, judge, reauthenticate_administrator,
  require_administrator, protect_last_administrator, get_user_row, get_user, revoke_user_sessions,
  no_hash, failure_window, Platform, DateTime, aware, minute, day,
}
use sih.Auth.Accounts.{
  add_user, insert_user, change_user, bootstrap_administrator, change_password, set_user_active,
}
use sih.Auth.Sessions.{is_live, admit, authenticate, resolve_session}
use sih.Auth.Challenges.{is_ascii, issue_login_challenge, consume_login_challenge}
use sih.Auth.Audit.{check_events, verify_auth_events}
use sih.Auth.Calls.{Call, run, empty_database}
use sih.Auth.Calls.Chain.{verified, IsChain, verify_auth_events-run, verify_auth_events_iff}
use sih.Auth.Calls.Throttling.{IsThrottled, IsThrottled-run}
use sih.Auth.Calls.Guessing.{authenticate-throttled}
use sih.Auth.Calls.Attempts.{failed, consume_login_challenge-again}
use sih.Auth.Calls.Answering.{issue_login_challenge-consume_login_challenge}
use sih.Auth.Calls.Resolving.{IsAdmitted, resolve_session-IsAdmitted}
use sih.Auth.Calls.Revocation.{change_password-resolve_session, set_user_active-resolve_session}
use sih.Auth.Calls.Administrators.{HasAdministrator, HasAdministrator-run}

abbrev platform : Platform
platform = record {
  casefold = λ s. s;
  is_printable = λ c. true;
  upper = λ s. s;
  account_key = λ s. codes "key:" ++ s;
  token_hash = λ s. codes "hash:" ++ s;
  event_digest = λ p. codes "event:" ++ p.subject;
  hash_password = λ password salt. ok (salt ++ password);
  verify_password = λ password encoded. bytes_eq encoded (codes "#" ++ password);
  session_lifetime = 480 * minute;
  idle_timeout = 30 * minute;
}

abbrev start : ℕ
start = 738000 * day

abbrev clock : ℕ → DateTime
clock minutes = aware (start + minutes * minute)

abbrev user_of : Text → Text → User
user_of user_id username = record {
  user_id = user_id;
  username = username;
  display_name = codes "A name";
  password_hash = codes "#secret";
  role = Role.administrator;
  active = true;
  created_at = start;
  must_change_password = false;
}

abbrev session_of : Text → Text → Session
session_of token user_id = record {
  token_hash = codes "hash:" ++ token;
  user_id = user_id;
  created_at = start;
  expires_at = start + 480 * minute;
  revoked_at = none;
  last_seen_at = start;
}

-- Two administrators, each with a session.
abbrev two_administrators : Database
two_administrators = record {
  users = user_of (codes "u1") (codes "root") ∷ user_of (codes "u2") (codes "second") ∷ [];
  sessions = session_of (codes "t1") (codes "u1") ∷ session_of (codes "t2") (codes "u2") ∷ [];
  failures = [];
  challenges = [];
  events = [];
}

HasAdministrator-run_example : HasAdministrator (
    run platform
      (Call.setting_active
          (codes "u1")
          (codes "u1")
          false
          (codes "secret")
          (codes "leaving")
          (clock 1)
        ∷ [])
      (bootstrap_administrator platform
        (codes "root")
        (codes "Root")
        (codes "secret")
        (clock 0)
        (codes "u1")
        (codes "#")
        empty_database).0)
unfolding bootstrap_administrator add_user insert_user append_event transaction ◌>>=◌
    normalized_username normalized_time user_from_row strip lstrip rstrip is_space is_blank
    any_hidden find_user find_username
HasAdministrator-run_example =
    HasAdministrator-run platform (codes "root") (codes "Root") (codes "secret") (clock 0)
      (codes "u1") (codes "#") empty_database
      (bootstrap_administrator platform (codes "root") (codes "Root") (codes "secret") (clock 0)
        (codes "u1") (codes "#") empty_database).0
      (record {
        user_id = codes "u1";
        username = codes "root";
        display_name = codes "Root";
        role = Role.administrator;
        active = true;
        created_at = start;
        must_change_password = false;
      })
      (Call.setting_active (codes "u1") (codes "u1") false (codes "secret") (codes "leaving")
          (clock 1)
        ∷ [])
      refl

verify_auth_events-run_example :
    verify_auth_events platform
      (run platform (Call.revoking (codes "t1") (clock 1) ∷ []) two_administrators)
    ≡ verified (
        length (run platform (Call.revoking (codes "t1") (clock 1) ∷ []) two_administrators).events)
unfolding verify_auth_events check_events
verify_auth_events-run_example =
    verify_auth_events-run platform two_administrators (Call.revoking (codes "t1") (clock 1) ∷ [])
      refl

verify_auth_events_iff_example :
    ((verify_auth_events platform two_administrators).valid ≡ true)
    ↔ IsChain platform 0 no_hash two_administrators.events
verify_auth_events_iff_example = verify_auth_events_iff platform two_administrators

IsThrottled-run_example : IsThrottled (
    run platform
      (Call.authenticating (codes "root") (codes "guess") (clock 0) (codes "t1") ∷ [])
      empty_database)
IsThrottled-run_example =
    IsThrottled-run platform
      (Call.authenticating (codes "root") (codes "guess") (clock 0) (codes "t1") ∷ [])

resolve_session-IsAdmitted_example :
    IsAdmitted platform two_administrators
      (codes "t1")
      (clock 10)
      false
      (user_from_row (user_of (codes "u1") (codes "root")))
unfolding resolve_session transaction ◌>>=◌ normalized_time earlier find_session find_user is_live
    admit touch_session user_from_row
resolve_session-IsAdmitted_example =
    resolve_session-IsAdmitted platform (codes "t1") (clock 10) false two_administrators
      (resolve_session platform (codes "t1") (clock 10) false two_administrators).0
      (user_from_row (user_of (codes "u1") (codes "root"))) refl

-- The other administrator, who stays.
abbrev second_user : UserRecord
second_user = record {
  user_id = codes "u2";
  username = codes "second";
  display_name = codes "A name";
  role = Role.administrator;
  active = true;
  created_at = start;
  must_change_password = false;
}

abbrev changed : Database
changed =
    (change_password platform (codes "u1") (codes "secret") (codes "other") (clock 1) (codes "#")
      two_administrators).0

change_password-resolve_session_example : second_user.user_id ≢ codes "u1"
unfolding change_password get_user_row check_password earlier drop_failures failures_of judge
    clear_account_failures clear_key change_user update_user revoke_user_sessions revoke_sessions
    append_event last_event resolve_session transaction ◌>>=◌ normalized_time find_session find_user
    is_live admit touch_session user_from_row
change_password-resolve_session_example =
    change_password-resolve_session platform (codes "u1") (codes "secret") (codes "other") (clock 1)
      (codes "#") two_administrators changed
      (resolve_session platform (codes "t2") (clock 2) false changed).0 (codes "t2") (clock 2) false
      second_user refl refl

abbrev suspended : Database
suspended =
    (set_user_active platform (codes "u2") (codes "u1") false (codes "secret") (codes "left")
      (clock 1) two_administrators).0

set_user_active-resolve_session_example : second_user.user_id ≢ codes "u1"
unfolding set_user_active validated_reason reauthenticate_administrator require_administrator
    protect_last_administrator count_usable get_user get_user_row check_password earlier
    drop_failures failures_of judge clear_account_failures clear_key change_user update_user
    revoke_user_sessions revoke_sessions append_event last_event resolve_session transaction ◌>>=◌
    normalized_time find_session find_user is_live admit touch_session user_from_row strip lstrip
    rstrip is_space
set_user_active-resolve_session_example =
    set_user_active-resolve_session platform (codes "u2") (codes "u1") (codes "secret")
      (codes "left") (clock 1) two_administrators suspended
      (resolve_session platform (codes "t2") (clock 2) false suspended).0
      (record {
        user_id = codes "u1";
        username = codes "root";
        display_name = codes "A name";
        role = Role.administrator;
        active = false;
        created_at = start;
        must_change_password = false;
      })
      (codes "t2") (clock 2) false second_user refl refl

abbrev failure_at : ℕ → Failure
failure_at minutes = record {
  account_key = codes "key:root";
  occurred_at = start + minutes * minute;
}

abbrev attacked : Database
attacked = record two_administrators {
  failures = failure_at 1 ∷ failure_at 2 ∷ failure_at 3 ∷ failure_at 4 ∷ failure_at 5 ∷ [];
}

authenticate-throttled_example :
    (authenticate platform (codes "root") (codes "secret") (clock 6) (codes "t3") attacked
      ≡ authenticate platform (codes "root") (codes "guess") (clock 6) (codes "t4") attacked)
    × (((authenticate platform (codes "root") (codes "secret") (clock 6) (codes "t3") attacked).1
          ≡ raise ErrorKind.authentication_throttled
              (text "Too many authentication attempts; try again later"))
        × (((authenticate platform
                (codes "root")
                (codes "secret")
                (clock 6)
                (codes "t3")
                attacked).0.failures
              ≡ drop_failures (start + 6 * minute - failure_window) attacked.failures)
            × ((authenticate platform
                  (codes "root")
                  (codes "secret")
                  (clock 6)
                  (codes "t3")
                  attacked).0.sessions
                ≡ attacked.sessions)))
unfolding earlier drop_failures failures_of normalized_username strip lstrip rstrip is_space
    any_hidden
authenticate-throttled_example =
    authenticate-throttled platform (codes "root") (codes "secret") (codes "guess") (codes "t3")
      (codes "t4") (start + 6 * minute) (start + 6 * minute - failure_window) attacked refl
      (omega arith)

abbrev challenged : Database
challenged = record two_administrators {
  challenges =
      record {
        challenge_hash = codes "hash:c1";
        answer = codes "ABC234";
        expires_at = start + 2 * minute;
      }
      ∷ [];
}

consume_login_challenge-again_example :
    consume_login_challenge platform
      (codes "c1")
      (codes "ABC234")
      (clock 1)
      (consume_login_challenge platform (codes "c1") (codes "WRONG2") (clock 1) challenged).0
    ≡ failed (consume_login_challenge platform (codes "c1") (codes "WRONG2") (clock 1) challenged).0
unfolding find_challenge is_ascii without_spaces is_space
consume_login_challenge-again_example =
    consume_login_challenge-again platform (codes "c1") (codes "WRONG2") (codes "ABC234")
      (start + 1 * minute) (clock 1) challenged
      (record {
        challenge_hash = codes "hash:c1";
        answer = codes "ABC234";
        expires_at = start + 2 * minute;
      })
      refl refl refl refl

abbrev issued : Database
issued =
    (issue_login_challenge platform (clock 0) (codes "c1") (codes "ABC234") two_administrators).0

issue_login_challenge-consume_login_challenge_example :
    (consume_login_challenge platform (codes "c1") (codes "ABC234") (clock 1) issued).1 ≡ ok tt
unfolding issue_login_challenge normalized_time later transaction ◌>>=◌ drop_expired find_challenge
    is_ascii without_spaces is_space
issue_login_challenge-consume_login_challenge_example =
    issue_login_challenge-consume_login_challenge platform start (start + 1 * minute) (codes "c1")
      (codes "ABC234") two_administrators issued
      (record {
        challenge_id = codes "c1";
        answer = codes "ABC234";
        expires_at = start + 2 * minute;
      })
      refl refl refl refl (omega arith)
