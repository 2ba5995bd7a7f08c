-- ===== src/Cases/Domain.antt =====
-- cases/domain.py. A time is its number of microseconds: the texts that the store keeps have a
-- fixed width, so they compare as the numbers do.
use sih.Common.{ℕ, Bool, true, false, Option, none, some, String}
use sih.Common.Text.{Text}

pub data CaseStatus : Type 0 where
  intake acquisition processing examiner_review supervisor_review approved closed : CaseStatus

-- `target in ALLOWED_CASE_TRANSITIONS[current]`
unfoldable pub is_allowed : CaseStatus → CaseStatus → Bool
is_allowed CaseStatus.intake CaseStatus.acquisition = true
is_allowed CaseStatus.intake _ = false
is_allowed CaseStatus.acquisition CaseStatus.processing = true
is_allowed CaseStatus.acquisition CaseStatus.intake = true
is_allowed CaseStatus.acquisition _ = false
is_allowed CaseStatus.processing CaseStatus.examiner_review = true
is_allowed CaseStatus.processing CaseStatus.acquisition = true
is_allowed CaseStatus.processing _ = false
is_allowed CaseStatus.examiner_review CaseStatus.supervisor_review = true
is_allowed CaseStatus.examiner_review CaseStatus.processing = true
is_allowed CaseStatus.examiner_review _ = false
is_allowed CaseStatus.supervisor_review CaseStatus.approved = true
is_allowed CaseStatus.supervisor_review CaseStatus.examiner_review = true
is_allowed CaseStatus.supervisor_review _ = false
is_allowed CaseStatus.approved CaseStatus.closed = true
is_allowed CaseStatus.approved CaseStatus.examiner_review = true
is_allowed CaseStatus.approved _ = false
is_allowed CaseStatus.closed _ = false

pub record CaseRecord : Type 0 where
  pub case_id : Text
  pub case_reference : Text
  pub agency : Text
  pub police_station : Option Text
  pub investigating_officer : Text
  pub classification : Text
  pub status : CaseStatus
  pub version : ℕ
  pub created_at : ℕ
  pub updated_at : ℕ

pub record CaseAssignmentRecord : Type 0 where
  pub assignment_id : Text
  pub case_id : Text
  pub user_id : Text
  pub assigned_by : Text
  pub assigned_at : ℕ
  pub revoked_by : Option Text
  pub revoked_at : Option ℕ

-- `CaseAssignmentRecord.active`
abbrev pub active : CaseAssignmentRecord → Bool
active a = elim a.revoked_at [ none ↦ true | some t ↦ false ]

-- `_activity_payload`: the fields of an activity event that its hash covers.
pub record ActivityPayload (Details : Type 0) : Type 0 where
  pub event_id : Text
  pub case_id : Text
  pub sequence : ℕ
  pub actor_id : Text
  pub action : Text
  pub occurred_at : ℕ
  pub details : Details
  pub previous_hash : Text

pub record ActivityEvent (Details : Type 0) : Type 0 where
  pub payload : ActivityPayload Details
  pub event_hash : Text

pub record ActivityVerification : Type 0 where
  pub valid : Bool
  pub checked_events : ℕ
  pub message : String
  pub failure_sequence : Option ℕ
