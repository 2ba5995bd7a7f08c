-- ===== src/Cases/Store.antt =====
-- The operations of `CaseStore` (cases/store.py) on cases and assignments. The lock makes each a
-- step on the database; what `uuid4` returns during a call is an argument, and so is the time
-- `occurred_at or datetime.now(UTC)`.
use sih.Common.{
  ℕ, not, Option, none, some, [], ◌∷◌, ◌==◌, text, ErrorKind, Result, ok, raise, raise_if, ◌>>=◌,
  ◌>>◌,
}
use sih.Common.Text.{Text, codes, strip}
use sih.Cases.Domain.{CaseStatus, is_allowed, CaseRecord, CaseAssignmentRecord}
use sih.Cases.Tables.{
  Database, find_active, insert_case, insert_assignment, update_status, updated_rows,
  update_revoked,
}
use sih.Cases.Queries.{
  DateTime, normalized_time, require_text, optional_text, except_integrity, get_case,
  get_assignment, require_case,
}
use sih.Cases.Activity.{Platform, append_activity}

module _ (P : Platform) where
  open P use {Details, created_details, access_details, status_details, safe_details, event_digest}

  -- The arguments of `create_case`, with what `uuid4` returns during the call.
  pub record CaseRequest : Type 0 where
    pub case_reference : Text
    pub agency : Text
    pub investigating_officer : Text
    pub classification : Text
    pub actor_id : Text
    pub police_station : Option Text
    pub now : DateTime
    pub case_id : Text
    pub created_event : Text
    pub assignment_id : Text
    pub granted_event : Text

  abbrev pub new_case : CaseRequest → ℕ → CaseRecord
  new_case r time = record {
    case_id = r.case_id;
    case_reference = strip r.case_reference;
    agency = strip r.agency;
    police_station = optional_text r.police_station;
    investigating_officer = strip r.investigating_officer;
    classification = strip r.classification;
    status = CaseStatus.intake;
    version = 1;
    created_at = time;
    updated_at = time;
  }

  abbrev pub new_assignment :
      (assignment_id case_id user_id assigned_by : Text) → ℕ → CaseAssignmentRecord
  new_assignment assignment_id case_id user_id assigned_by time = record {
    assignment_id = assignment_id;
    case_id = case_id;
    user_id = user_id;
    assigned_by = assigned_by;
    assigned_at = time;
    revoked_by = none;
    revoked_at = none;
  }

  -- The transaction of `create_case`.
  unfoldable pub create_rows : Database Details → CaseRequest → ℕ → Result (Database Details)
  create_rows db r time = do
    cases ← insert_case (new_case r time) db
    created ←
        append_activity P cases r.case_id r.actor_id (codes "CASE_CREATED")
          (created_details (strip r.case_reference)) r.now r.created_event
    assigned ←
        insert_assignment
          (new_assignment r.assignment_id r.case_id (strip r.actor_id) (strip r.actor_id) time)
          created
    append_activity P assigned r.case_id r.actor_id (codes "CASE_ACCESS_GRANTED")
        (access_details r.assignment_id (strip r.actor_id)) r.now r.granted_event

  -- `create_case`
  unfoldable pub create_case :
      Database Details → CaseRequest → Result (Database Details × CaseRecord)
  create_case db r = do
    require_text (
        ("case_reference", r.case_reference)
        ∷ ("agency", r.agency)
        ∷ ("investigating_officer", r.investigating_officer)
        ∷ ("classification", r.classification)
        ∷ ("actor_id", r.actor_id)
        ∷ [])
    time ← normalized_time r.now
    after ←
        except_integrity (create_rows db r time) ErrorKind.duplicate_case_reference_error
          (text "Case reference already exists")
    found ← get_case after r.case_id
    ok (after, found)

  -- The transaction of `assign_user`.
  unfoldable pub assign_rows :
      Database Details
      → (case_id user_id assigned_by : Text) → DateTime
      → ℕ
      → (assignment_id event_id : Text) → Result (Database Details)
  assign_rows db case_id user_id assigned_by now time assignment_id event_id = do
    require_case db case_id
    assigned ←
        insert_assignment
          (new_assignment assignment_id (strip case_id) (strip user_id) (strip assigned_by) time) db
    append_activity P assigned case_id assigned_by (codes "CASE_ACCESS_GRANTED")
        (access_details assignment_id (strip user_id)) now event_id

  -- `assign_user`
  unfoldable pub assign_user :
      Database Details
      → (case_id user_id assigned_by : Text) → DateTime
      → (assignment_id event_id : Text) → Result (Database Details × CaseAssignmentRecord)
  assign_user db case_id user_id assigned_by now assignment_id event_id = do
    require_text (("case_id", case_id) ∷ ("user_id", user_id) ∷ ("assigned_by", assigned_by) ∷ [])
    time ← normalized_time now
    after ←
        except_integrity
          (assign_rows db case_id user_id assigned_by now time assignment_id event_id)
          ErrorKind.case_assignment_already_exists_error
          (text "User already has access to this case")
    found ← get_assignment after assignment_id
    ok (after, found)

  -- The transaction of `revoke_user`, once the assignment was found.
  unfoldable pub revoke_rows :
      Database Details
      → CaseAssignmentRecord
      → (case_id user_id revoked_by : Text) → DateTime
      → ℕ
      → (event_id : Text) → Result (Database Details)
  revoke_rows db row case_id user_id revoked_by now time event_id = do
    updated ← update_revoked row.assignment_id (strip revoked_by) time db.assignments
    raise_if (not (updated.1 == 1)) ErrorKind.case_assignment_not_found_error
        (text "Active case assignment was not found")
    append_activity P (record db { assignments = updated.0 }) case_id revoked_by
        (codes "CASE_ACCESS_REVOKED") (access_details row.assignment_id (strip user_id)) now
        event_id

  -- `revoke_user`
  unfoldable pub revoke_user :
      Database Details
      → (case_id user_id revoked_by : Text) → DateTime
      → (event_id : Text) → Result (Database Details × CaseAssignmentRecord)
  revoke_user db case_id user_id revoked_by now event_id = do
    require_text (("case_id", case_id) ∷ ("user_id", user_id) ∷ ("revoked_by", revoked_by) ∷ [])
    time ← normalized_time now
    elim (find_active (strip case_id) (strip user_id) db.assignments) [
      | none ↦ (do
        require_case db case_id
        raise ErrorKind.case_assignment_not_found_error
            (text "Active case assignment was not found"))
      | some row ↦ (do
        after ← revoke_rows db row case_id user_id revoked_by now time event_id
        found ← get_assignment after row.assignment_id
        ok (after, found))
    ]

  -- The transaction of `transition_case`, once the case was found.
  unfoldable pub transition_rows :
      Database Details
      → CaseRecord
      → (case_id : Text) → (target_status : CaseStatus) → (expected_version : ℕ)
      → (actor_id reason : Text) → DateTime
      → ℕ
      → (event_id : Text) → Result (Database Details)
  transition_rows db row case_id target_status expected_version actor_id reason now time event_id =
      do
        raise_if (not (row.version == expected_version)) ErrorKind.concurrent_case_update_error
            (text "Case was changed by another operation")
        raise_if (not (is_allowed row.status target_status)) ErrorKind.invalid_case_transition_error
            (text "Case cannot move from {} to {}")
        raise_if (not (updated_rows case_id expected_version db.cases == 1))
            ErrorKind.concurrent_case_update_error (text "Case was changed by another operation")
        append_activity P
            (record db {
              cases = update_status case_id expected_version target_status time db.cases;
            })
            case_id actor_id (codes "CASE_STATUS_CHANGED")
            (status_details row.status target_status (strip reason)) now event_id

  -- `transition_case`
  unfoldable pub transition_case :
      Database Details
      → (case_id : Text) → (target_status : CaseStatus) → (expected_version : ℕ)
      → (actor_id reason : Text) → DateTime
      → (event_id : Text) → Result (Database Details × CaseRecord)
  transition_case db case_id target_status expected_version actor_id reason now event_id = do
    require_text (("actor_id", actor_id) ∷ ("reason", reason) ∷ [])
    time ← normalized_time now
    row ← get_case db case_id
    after ←
        transition_rows db row case_id target_status expected_version actor_id reason now time
          event_id
    found ← get_case after case_id
    ok (after, found)
