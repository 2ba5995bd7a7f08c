-- ===== src/Auth/Domain.antt =====
-- The roles and the rows of auth/store.py. A time is its number of microseconds: the texts that the
-- store keeps have a fixed width, so they compare as the numbers do.
use sih.Common.{ℕ, Bool, true, false, Option, String, text, ErrorKind, Result, raise_if, not}
use sih.Common.Text.{Text}

pub data Role : Type 0 where
  intake_officer examiner supervisor investigator auditor administrator : Role

pub data Permission : Type 0 where
  case_create case_read case_assign exhibit_create evidence_ingest : Permission
  case_process case_approve biometric_authorize user_manage : Permission

-- `permission in ROLE_PERMISSIONS[role]`
unfoldable pub has_permission : Role → Permission → Bool
has_permission Role.intake_officer Permission.case_create = true
has_permission Role.intake_officer Permission.case_read = true
has_permission Role.intake_officer Permission.exhibit_create = true
has_permission Role.intake_officer Permission.evidence_ingest = true
has_permission Role.intake_officer _ = false
has_permission Role.examiner Permission.case_read = true
has_permission Role.examiner Permission.case_process = true
has_permission Role.examiner _ = false
has_permission Role.supervisor Permission.case_read = true
has_permission Role.supervisor Permission.case_assign = true
has_permission Role.supervisor Permission.case_process = true
has_permission Role.supervisor Permission.case_approve = true
has_permission Role.supervisor Permission.biometric_authorize = true
has_permission Role.supervisor _ = false
has_permission Role.investigator Permission.case_read = true
has_permission Role.investigator _ = false
has_permission Role.auditor Permission.case_read = true
has_permission Role.auditor _ = false
has_permission Role.administrator _ = true

-- `role is Role.ADMINISTRATOR`
abbrev pub is_administrator : Role → Bool
is_administrator Role.administrator = true
is_administrator _ = false

-- A row of `users`; `UserRecord` is the same without the password hash.
pub record User : Type 0 where
  pub user_id : Text
  pub username : Text
  pub display_name : Text
  pub password_hash : Text
  pub role : Role
  pub active : Bool
  pub created_at : ℕ
  pub must_change_password : Bool

pub record UserRecord : Type 0 where
  pub user_id : Text
  pub username : Text
  pub display_name : Text
  pub role : Role
  pub active : Bool
  pub created_at : ℕ
  pub must_change_password : Bool

-- `_user_from_row`
unfoldable pub user_from_row : User → UserRecord
user_from_row u = record {
  user_id = u.user_id;
  username = u.username;
  display_name = u.display_name;
  role = u.role;
  active = u.active;
  created_at = u.created_at;
  must_change_password = u.must_change_password;
}

-- A row of `sessions`.
pub record Session : Type 0 where
  pub token_hash : Text
  pub user_id : Text
  pub created_at : ℕ
  pub expires_at : ℕ
  pub revoked_at : Option ℕ
  pub last_seen_at : ℕ

pub record AuthenticatedSession : Type 0 where
  pub token : Text
  pub expires_at : ℕ
  pub user : UserRecord
  pub idle_timeout_seconds : ℕ

-- A row of `auth_failures`.
pub record Failure : Type 0 where
  pub account_key : Text
  pub occurred_at : ℕ

-- A row of `login_challenges`.
pub record Challenge : Type 0 where
  pub challenge_hash : Text
  pub answer : Text
  pub expires_at : ℕ

pub record LoginChallenge : Type 0 where
  pub challenge_id : Text
  pub answer : Text
  pub expires_at : ℕ

-- The dictionaries that the store puts into `details`.
pub data Details : Type 0 where
  nothing : Details
  created_with : Role → Bool → Details
  login_with : Bool → Details
  reason_is : Text → Details
  throttled_for : String → ℕ → Details
  failed_for : String → Details

-- The fields of an audit event that its hash covers.
pub record EventPayload : Type 0 where
  pub sequence : ℕ
  pub actor_id : Option Text
  pub subject : Text
  pub action : String
  pub occurred_at : ℕ
  pub details : Details
  pub previous_hash : Text

pub record AuthEvent : Type 0 where
  pub payload : EventPayload
  pub event_hash : Text

pub record AuthAuditVerification : Type 0 where
  pub valid : Bool
  pub checked_events : ℕ

-- `require_permission`
unfoldable pub require_permission : UserRecord → Permission → Result (Unit {0})
require_permission user permission =
    raise_if (not (has_permission user.role permission)) ErrorKind.authorization_error
      (text "Role {} lacks {}")
