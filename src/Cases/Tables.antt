-- ===== src/Cases/Tables.antt =====
-- The tables of cases/store.py, with the constraints of their schema, and the statements on them.
-- A statement that breaks a constraint raises sqlite3.IntegrityError. A transaction that raises is
-- rolled back: an error carries no database.
use sih.Common.{
  is_some, ℕ, suc, ◌+◌, Bool, false, not, ◌&&◌, ◌||◌, Option, none, some, List, [], ◌∷◌, ◌++◌, leb,
  ◌==◌, if◌then◌else◌, text, ErrorKind, Result, ok, raise_if, ◌>>=◌, ◌>>◌,
}
use sih.Common.Bytes.{bytes_eq}
use sih.Common.Text.{Text, lower}
use sih.Cases.Domain.{CaseStatus, CaseRecord, CaseAssignmentRecord, active, ActivityEvent}

pub record Database (Details : Type 0) : Type 0 where
  pub cases : List CaseRecord
  pub assignments : List CaseAssignmentRecord
  pub activity : List (ActivityEvent Details)

-- SELECT * FROM cases WHERE case_id = ?
unfoldable pub find_case : Text → List CaseRecord → Option CaseRecord
find_case case_id [] = none
find_case case_id (c ∷ cs) =
    let later = find_case case_id cs in if bytes_eq c.case_id case_id then some c else later

-- Whether a row has the reference, in any case of its letters.
unfoldable pub has_reference : Text → List CaseRecord → Bool
has_reference reference [] = false
has_reference reference (c ∷ cs) =
    bytes_eq (lower c.case_reference) (lower reference) || has_reference reference cs

-- SELECT * FROM case_assignments WHERE assignment_id = ?
unfoldable pub find_assignment : Text → List CaseAssignmentRecord → Option CaseAssignmentRecord
find_assignment assignment_id [] = none
find_assignment assignment_id (a ∷ rest) =
    let later = find_assignment assignment_id rest in
    if bytes_eq a.assignment_id assignment_id then some a else later

-- SELECT * FROM case_assignments WHERE case_id = ? AND user_id = ? AND revoked_at IS NULL
unfoldable pub find_active : Text → Text → List CaseAssignmentRecord → Option CaseAssignmentRecord
find_active case_id user_id [] = none
find_active case_id user_id (a ∷ rest) =
    let later = find_active case_id user_id rest in
    if bytes_eq a.case_id case_id && (bytes_eq a.user_id user_id && active a) then some a else later

abbrev pub integrity_unless : Bool → Result (Unit {0})
integrity_unless holds = raise_if (not holds) ErrorKind.integrity_error (text "")

module _ {Details : Type 0} where
  -- INSERT INTO cases
  unfoldable pub insert_case : CaseRecord → Database Details → Result (Database Details)
  insert_case c db = do
    integrity_unless (not (is_some (find_case c.case_id db.cases)))
    integrity_unless (not (has_reference c.case_reference db.cases))
    integrity_unless (leb 1 c.version)
    ok (record db { cases = db.cases ++ c ∷ [] })

  -- INSERT INTO case_assignments
  unfoldable pub insert_assignment :
      CaseAssignmentRecord → Database Details → Result (Database Details)
  insert_assignment a db = do
    integrity_unless (not (is_some (find_assignment a.assignment_id db.assignments)))
    integrity_unless (is_some (find_case a.case_id db.cases))
    integrity_unless (not (is_some (find_active a.case_id a.user_id db.assignments)))
    ok (record db { assignments = db.assignments ++ a ∷ [] })

  -- Whether an event takes the place of another.
  unfoldable pub has_event : ActivityEvent Details → List (ActivityEvent Details) → Bool
  has_event e [] = false
  has_event e (f ∷ fs) =
      bytes_eq f.payload.event_id e.payload.event_id
      || bytes_eq f.payload.case_id e.payload.case_id && f.payload.sequence == e.payload.sequence
      || has_event e fs

  -- INSERT INTO activity_events
  unfoldable pub insert_activity :
      ActivityEvent Details → Database Details → Result (Database Details)
  insert_activity e db = do
    integrity_unless (not (has_event e db.activity))
    integrity_unless (is_some (find_case e.payload.case_id db.cases))
    ok (record db { activity = db.activity ++ e ∷ [] })

  -- The place of an event in ORDER BY sequence.
  unfoldable pub insert_by_sequence :
      ActivityEvent Details → List (ActivityEvent Details) → List (ActivityEvent Details)
  insert_by_sequence e [] = e ∷ []
  insert_by_sequence e (f ∷ fs) =
      let later = insert_by_sequence e fs in
      if leb e.payload.sequence f.payload.sequence then e ∷ f ∷ fs else f ∷ later

  -- SELECT * FROM activity_events WHERE case_id = ? ORDER BY sequence
  unfoldable pub events_of : Text → List (ActivityEvent Details) → List (ActivityEvent Details)
  events_of case_id [] = []
  events_of case_id (e ∷ es) =
      let later = events_of case_id es in
      if bytes_eq e.payload.case_id case_id then insert_by_sequence e later else later

-- UPDATE cases SET status, version, updated_at WHERE case_id = ? AND version = ?, on one row
unfoldable pub update_row : Text → ℕ → CaseStatus → ℕ → CaseRecord → CaseRecord
update_row case_id expected target updated c =
    if bytes_eq c.case_id case_id && c.version == expected
    then record c { status = target; version = c.version + 1; updated_at = updated }
    else c

-- The same on all rows.
unfoldable pub update_status : Text → ℕ → CaseStatus → ℕ → List CaseRecord → List CaseRecord
update_status case_id expected target updated [] = []
update_status case_id expected target updated (c ∷ cs) =
    update_row case_id expected target updated c ∷ update_status case_id expected target updated cs

-- Its `rowcount`.
unfoldable pub updated_rows : Text → ℕ → List CaseRecord → ℕ
updated_rows case_id expected [] = 0
updated_rows case_id expected (c ∷ cs) =
    (if bytes_eq c.case_id case_id && c.version == expected then 1 else 0)
    + updated_rows case_id expected cs

-- UPDATE case_assignments SET revoked_by, revoked_at WHERE assignment_id = ? AND revoked_at IS NULL,
-- under CHECK (revoked_at >= assigned_at), and its `rowcount`
unfoldable pub update_revoked :
    Text → Text → ℕ → List CaseAssignmentRecord → Result (List CaseAssignmentRecord × ℕ)
update_revoked assignment_id by time [] = ok ([], 0)
update_revoked assignment_id by time (a ∷ rest) = do
  later ← update_revoked assignment_id by time rest
  (if bytes_eq a.assignment_id assignment_id && active a
      then (do
        integrity_unless (leb a.assigned_at time)
        ok (record a { revoked_by = some by; revoked_at = some time } ∷ later.0, suc later.1))
      else ok (a ∷ later.0, later.1))
