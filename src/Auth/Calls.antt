-- ===== src/Auth/Calls.antt =====
-- The methods of `AuthStore` that write, as the steps of its database.
pub mod Administrators
pub mod Resolving
pub mod Answering
pub mod Attempts
pub mod Guessing
pub mod Revocation
pub mod Chain
pub mod Throttling
use sih.Common.{ℕ, Bool, Option, List, [], ◌∷◌, Result, ok, err}
use sih.Common.Bytes.{Bytes}
use sih.Common.Text.{Text}
use sih.Auth.Domain.{Role}
use sih.Auth.Tables.{Database}
use sih.Auth.Actions.{Action}
use sih.Auth.Actions.Rules.{Leaves}
use sih.Auth.Checks.{Platform, DateTime}
use sih.Auth.Accounts.{
  bootstrap_administrator, create_user, change_password, set_user_active, reset_password,
  revoke_sessions_of, recover_administrator,
}
use sih.Auth.Sessions.{authenticate, resolve_session, revoke_session, revoke_all_sessions}
use sih.Auth.Challenges.{issue_login_challenge, consume_login_challenge}
use sih.Auth.Framing.{IsFramed}
use sih.Auth.Framing.Accounts.{
  bootstrap_administrator-Keeps, create_user-Keeps, change_password-Keeps, set_user_active-Keeps,
  reset_password-Keeps, revoke_sessions_of-Keeps, recover_administrator-Keeps,
}
use sih.Auth.Framing.Sessions.{
  authenticate-Keeps, resolve_session-Keeps, revoke_session-Keeps, revoke_all_sessions-Keeps,
  issue_login_challenge-Keeps, consume_login_challenge-Keeps,
}

-- A call, with what `secrets` and the clock return during it.
pub data Call : Type 0 where
  issuing : (now : DateTime) (token answer : Text) → Call
  consuming : (challenge_id answer : Text) (now : DateTime) → Call
  bootstrapping :
      (username display_name password : Text) (now : DateTime) (user_id : Text) (salt : Bytes)
      → Call
  creating :
      (username display_name password : Text) (role : Role) (now : DateTime)
      (actor_id : Option Text) (must_change : Bool) (user_id : Text) (salt : Bytes)
      → Call
  authenticating : (username password : Text) (now : DateTime) (token : Text) → Call
  resolving : (token : Text) (now : DateTime) (allow_password_change : Bool) → Call
  revoking : (token : Text) (now : DateTime) → Call
  revoking_all : (user_id : Text) (now : DateTime) → Call
  changing_password :
      (user_id current_password new_password : Text) (now : DateTime) (salt : Bytes) → Call
  setting_active :
      (actor_id user_id : Text) (active : Bool) (current_password reason : Text) (now : DateTime)
      → Call
  resetting_password :
      (actor_id user_id new_password current_password reason : Text) (now : DateTime) (salt : Bytes)
      → Call
  revoking_sessions_of : (actor_id user_id current_password reason : Text) (now : DateTime) → Call
  recovering : (username new_password : Text) (now : DateTime) (salt : Bytes) → Call

abbrev pub empty_database : Database
empty_database = record { users = []; sessions = []; failures = []; challenges = []; events = [] }

module _ (P : Platform) where
  -- The database after a call, whether it returned or raised.
  unfoldable pub step : Call → Database → Database
  step (Call.issuing now token answer) db = (issue_login_challenge P now token answer db).0
  step (Call.consuming challenge_id answer now) db =
      (consume_login_challenge P challenge_id answer now db).0
  step (Call.bootstrapping username display_name password now user_id salt) db =
      (bootstrap_administrator P username display_name password now user_id salt db).0
  step (Call.creating username display_name password role now actor_id must_change user_id salt)
        db =
      (create_user P username display_name password role now actor_id must_change user_id salt db).0
  step (Call.authenticating username password now token) db =
      (authenticate P username password now token db).0
  step (Call.resolving token now allow) db = (resolve_session P token now allow db).0
  step (Call.revoking token now) db = (revoke_session P token now db).0
  step (Call.revoking_all user_id now) db = (revoke_all_sessions P user_id now db).0
  step (Call.changing_password user_id current_password new_password now salt) db =
      (change_password P user_id current_password new_password now salt db).0
  step (Call.setting_active actor_id user_id active current_password reason now) db =
      (set_user_active P actor_id user_id active current_password reason now db).0
  step (Call.resetting_password actor_id user_id new_password current_password reason now salt) db =
      (reset_password P actor_id user_id new_password current_password reason now salt db).0
  step (Call.revoking_sessions_of actor_id user_id current_password reason now) db =
      (revoke_sessions_of P actor_id user_id current_password reason now db).0
  step (Call.recovering username new_password now salt) db =
      (recover_administrator P username new_password now salt db).0

  unfoldable pub run : List Call → Database → Database
  run [] db = db
  run (c ∷ calls) db = run calls (step c db)

module _ {I : Database → Type 0} where
  either_way {ℓ} : {A : Type ℓ} (r : Database × Result A) → Leaves (λ a after. I after) I r → I r.0
  either_way (after, ok a) h = h.outcome
  either_way (after, err e) h = h.outcome

  -- What the writes keep, every call keeps.
  pub step-Keeps :
      {P : Platform} → IsFramed P I → (c : Call) (db : Database) → I db → I (step P c db)
  unfolding step
  step-Keeps framed (Call.issuing now token answer) db h =
      either_way _ (issue_login_challenge-Keeps framed now token answer db h)
  step-Keeps framed (Call.consuming challenge_id answer now) db h =
      either_way _ (consume_login_challenge-Keeps framed challenge_id answer now db h)
  step-Keeps framed (Call.bootstrapping username display_name password now user_id salt) db h =
      either_way _
        (bootstrap_administrator-Keeps framed username display_name password now user_id salt db h)
  step-Keeps framed
        (Call.creating username display_name password role now actor_id must_change user_id salt) db
        h =
      either_way _ (
        create_user-Keeps framed username display_name password role now actor_id must_change
          user_id salt db h)
  step-Keeps framed (Call.authenticating username password now token) db h =
      either_way _ (authenticate-Keeps framed username password now token db h)
  step-Keeps framed (Call.resolving token now allow) db h =
      either_way _ (resolve_session-Keeps framed token now allow db h)
  step-Keeps framed (Call.revoking token now) db h =
      either_way _ (revoke_session-Keeps framed token now db h)
  step-Keeps framed (Call.revoking_all user_id now) db h =
      either_way _ (revoke_all_sessions-Keeps framed user_id now db h)
  step-Keeps framed (Call.changing_password user_id current_password new_password now salt) db h =
      either_way _
        (change_password-Keeps framed user_id current_password new_password now salt db h)
  step-Keeps framed (Call.setting_active actor_id user_id active current_password reason now) db h =
      either_way _
        (set_user_active-Keeps framed actor_id user_id active current_password reason now db h)
  step-Keeps framed
        (Call.resetting_password actor_id user_id new_password current_password reason now salt) db
        h =
      either_way _ (
        reset_password-Keeps framed actor_id user_id new_password current_password reason now salt
          db h)
  step-Keeps framed (Call.revoking_sessions_of actor_id user_id current_password reason now) db h =
      either_way _
        (revoke_sessions_of-Keeps framed actor_id user_id current_password reason now db h)
  step-Keeps framed (Call.recovering username new_password now salt) db h =
      either_way _ (recover_administrator-Keeps framed username new_password now salt db h)

  pub run-Keeps :
      {P : Platform}
      → IsFramed P I
      → (calls : List Call) (db : Database) → I db
      → I (run P calls db)
  unfolding run
  run-Keeps framed [] db h = h
  run-Keeps framed (c ∷ calls) db h = run-Keeps framed calls _ (step-Keeps framed c db h)
