-- ===== src/Cases/Transitions.antt =====
-- What a status change of `CaseStore` does to the tables, and that no update is lost.
use sih.Common.{
  is_some, ℕ, ◌+◌, ◌≡◌, refl, sym, ap, ◌∙◌, true, false, not, some, [], ◌∷◌, ◌++◌, ◌==◌, ok, arith,
  Option-cases, inl, inr,
}
use sih.Common.Ensures.{
  Ensures, Ensures-bind, Ensures-raise_if, Ensures-any, Ensures-weaken, Ensures-value, returns,
  raises,
}
use sih.Common.Bytes.{bytes_eq}
use sih.Common.Text.{Text}
use sih.Cases.Domain.{CaseStatus, is_allowed, CaseRecord, ActivityEvent}
use sih.Cases.Tables.{Database, find_case, has_event, insert_activity, update_status, updated_rows}
use sih.Cases.Queries.{DateTime, normalized_time, require_text, get_case}
use sih.Cases.Activity.{Platform, append_activity}
use sih.Cases.Store.{transition_rows, transition_case}
use sih.Cases.Rows.{some-injective, find_case-update_status, find_case-update_status_other}

get_case-Ensures :
    {D : Type 0} (db : Database D) (case_id : Text)
    → Ensures (λ _. Unit) (λ row. find_case case_id db.cases ≡ some row) (get_case db case_id)
unfolding get_case
get_case-Ensures db case_id = elim (Option-cases (find_case case_id db.cases)) [
  | inl none_found ↦ rw none_found (raises _ _ tt)
  | inr (row, found) ↦ rw found (returns row refl)
]

module _ (P : Platform) where
  open P use {Details}

  -- What `_append_activity` leaves: everything but one more event of the case.
  pub record IsLogged (db : Database Details) (case_id : Text) (after : Database Details)
      : Type 0 where
    pub cases : after.cases ≡ db.cases
    pub assignments : after.assignments ≡ db.assignments
    pub event : ActivityEvent Details
    pub logged : after.activity ≡ db.activity ++ event ∷ []
    pub of_case : event.payload.case_id ≡ case_id

  insert_activity-Ensures :
      (db : Database Details) (e : ActivityEvent Details)
      → Ensures (λ _. Unit) (IsLogged db e.payload.case_id) (insert_activity e db)
  unfolding insert_activity
  insert_activity-Ensures db e =
      Ensures-raise_if (not (not (has_event e db.activity))) _ _ _ tt λ _.
        Ensures-raise_if (not (is_some (find_case e.payload.case_id db.cases))) _ _ _ tt λ _.
          returns _
            (record { cases = refl; assignments = refl; event = e; logged = refl; of_case = refl })

  append_activity-Ensures :
      (db : Database Details) (case_id actor_id action : Text) (details : Details)
      (occurred_at : DateTime) (event_id : Text)
      → Ensures
          (λ _. Unit)
          (IsLogged db case_id)
          (append_activity P db case_id actor_id action details occurred_at event_id)
  unfolding append_activity
  append_activity-Ensures db case_id actor_id action details occurred_at event_id =
      Ensures-bind (normalized_time occurred_at) _ (Ensures-any _) λ time _.
        Ensures-bind (P.safe_details details) _ (Ensures-any _)
          λ safe _. insert_activity-Ensures db _

  -- A status change as the case's workflow allows it.
  pub record IsTransitioned (db : Database Details) (case_id : Text) (target : CaseStatus)
      (expected : ℕ) (result : Database Details × CaseRecord) : Type 0 where
    pub before : CaseRecord
    pub found : find_case case_id db.cases ≡ some before
    pub version : before.version ≡ expected
    pub allowed : is_allowed before.status target ≡ true
    pub time : ℕ
    pub returned :
        result.1 ≡ record before { status = target; version = expected + 1; updated_at = time }
    pub kept : find_case case_id result.0.cases ≡ some result.1
    pub others :
        (other : Text)
        → bytes_eq case_id other ≡ false
        → find_case other result.0.cases ≡ find_case other db.cases
    pub assignments : result.0.assignments ≡ db.assignments
    pub event : ActivityEvent Details
    pub logged : result.0.activity ≡ db.activity ++ event ∷ []
    pub of_case : event.payload.case_id ≡ case_id

  -- What the transaction has checked, and what it leaves.
  pub record IsMoved (db : Database Details) (case_id : Text) (row : CaseRecord)
      (target : CaseStatus) (expected time : ℕ) (after : Database Details) : Type 0 where
    pub version : row.version ≡ expected
    pub allowed : is_allowed row.status target ≡ true
    pub logged :
        IsLogged
          (record db { cases = update_status case_id expected target time db.cases })
          case_id
          after

  transition_rows-Ensures :
      (db : Database Details) (row : CaseRecord) (case_id : Text) (target : CaseStatus)
      (expected : ℕ) (actor_id reason : Text) (now : DateTime) (time : ℕ) (event_id : Text)
      → Ensures
          (λ _. Unit)
          (IsMoved db case_id row target expected time)
          (transition_rows P db row case_id target expected actor_id reason now time event_id)
  unfolding transition_rows
  transition_rows-Ensures db row case_id target expected actor_id reason now time event_id =
      Ensures-raise_if (not (row.version == expected)) _ _ _ tt λ version.
        Ensures-raise_if (not (is_allowed row.status target)) _ _ _ tt λ allowed.
          Ensures-raise_if (not (updated_rows case_id expected db.cases == 1)) _ _ _ tt λ _.
            Ensures-weaken _
              (λ after logged. record {
                version = ground arith;
                allowed = ground arith;
                logged = logged;
              })
              (append_activity-Ensures _ case_id actor_id _ _ now event_id)

  pub transition_case-Ensures :
      (db : Database Details) (case_id : Text) (target : CaseStatus) (expected : ℕ)
      (actor_id reason : Text) (now : DateTime) (event_id : Text)
      → Ensures
          (λ _. Unit)
          (IsTransitioned db case_id target expected)
          (transition_case P db case_id target expected actor_id reason now event_id)
  unfolding transition_case
  transition_case-Ensures db case_id target expected actor_id reason now event_id =
      Ensures-bind (require_text _) _ (Ensures-any _) λ _ _.
        Ensures-bind (normalized_time now) _ (Ensures-any _) λ time _.
          Ensures-bind (get_case db case_id) _ (get_case-Ensures db case_id) λ row found.
            Ensures-bind _ _
              (transition_rows-Ensures db row case_id target expected actor_id reason now time
                event_id)
              λ after m.
                Ensures-bind (get_case after case_id) _ (get_case-Ensures after case_id)
                  λ result kept. returns _ (record {
                    before = row;
                    found = found;
                    version = m.version;
                    allowed = m.allowed;
                    time = time;
                    returned =
                        some-injective (
                          sym kept
                          ∙ ap (find_case case_id) m.logged.cases
                          ∙ find_case-update_status case_id expected target time db.cases row found
                              m.version)
                        ∙ ap {A = ℕ} {B = CaseRecord}
                            (λ n. record row {
                              status = target;
                              version = n + 1;
                              updated_at = time;
                            })
                            m.version;
                    kept = kept;
                    others = λ other differs.
                        ap (find_case other) m.logged.cases
                        ∙ find_case-update_status_other case_id expected target time other db.cases
                            differs;
                    assignments = m.logged.assignments;
                    event = m.logged.event;
                    logged = m.logged.logged;
                    of_case = m.logged.of_case;
                  })

  -- Optimistic locking loses no update: once a status change that expected some version went
  -- through, a second one of the same case that expects that version raises.
  pub no_lost_update :
      (db : Database Details) (case_id : Text) (target target' : CaseStatus) (expected : ℕ)
      (actor_id actor_id' reason reason' : Text) (now now' : DateTime) (event_id event_id' : Text)
      (after after' : Database Details) (row row' : CaseRecord)
      → transition_case P db case_id target expected actor_id reason now event_id ≡ ok (after, row)
      → ¬ (
          transition_case P after case_id target' expected actor_id' reason' now' event_id'
          ≡ ok (after', row'))
  no_lost_update db case_id target target' expected actor_id actor_id' reason reason' now now'
        event_id event_id' after after' row row' first second =
      let one =
        Ensures-value _
          (transition_case-Ensures db case_id target expected actor_id reason now event_id)
          (after, row) first in
      let two =
        Ensures-value _
          (transition_case-Ensures after case_id target' expected actor_id' reason' now' event_id')
          (after', row') second in
      let same = ap (λ r. r.version) (some-injective (sym two.found ∙ one.kept)) in
      omega (arith, same, two.version, ap (λ r. r.version) one.returned)
