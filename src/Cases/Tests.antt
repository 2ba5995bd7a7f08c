-- ===== src/Cases/Tests.antt =====
-- Runs of the case store, and the theorems at concrete inputs.
use sih.Common.{◌≡◌, refl, [], ◌∷◌, length, none, true, false, Result, ok, err}
use sih.Common.Ensures.{Ensures}
use sih.Common.Text.{Text, codes, is_blank, strip, lstrip, rstrip, is_space, lower}
use sih.Cases.Domain.{CaseStatus, CaseRecord, is_allowed}
use sih.Cases.Tables.{
  Database, find_case, find_active, find_assignment, has_reference, insert_case, insert_assignment,
  insert_activity, has_event, events_of, insert_by_sequence, update_row, update_status,
  updated_rows, update_revoked,
}
use sih.Cases.Queries.{
  aware, has_access, get_case, get_assignment, require_text, empty_values, normalized_time,
  optional_text,
}
use sih.Cases.Activity.{
  Platform, append_activity, latest, list_activity, verify_activity, verify_events,
}
use sih.Cases.Store.{
  CaseRequest, create_case, transition_case, revoke_user, revoke_rows, create_rows, transition_rows,
}
use sih.Cases.Transitions.{no_lost_update}

-- A toy digest that sums the fields of the payload it reads.
abbrev platform : Platform
platform = record {
  Details = Text;
  created_details = λ reference. reference;
  access_details = λ assignment_id user_id. user_id;
  status_details = λ before after reason. reason;
  safe_details = λ details. ok details;
  event_digest = λ payload. payload.sequence ∷ length payload.details ∷ payload.previous_hash;
}

abbrev empty : Database Text
empty = record { cases = []; assignments = []; activity = [] }

abbrev request : CaseRequest platform
request = record {
  case_reference = codes " FIR-7 ";
  agency = codes "CID";
  investigating_officer = codes "Rao";
  classification = codes "theft";
  actor_id = codes "u1";
  police_station = none;
  now = aware 5;
  case_id = codes "c1";
  created_event = codes "e1";
  assignment_id = codes "a1";
  granted_event = codes "e2";
}

abbrev outcome {ℓ κ} : {A : Type ℓ} {B : Type κ} → A → Result (A × B) → A
outcome a (ok (b, x)) = b
outcome a (err e) = a

abbrev created : Database Text
created = outcome empty (create_case platform empty request)

abbrev moved : Result (Database Text × CaseRecord)
moved =
    transition_case platform created (codes "c1") CaseStatus.acquisition 1 (codes "u1")
      (codes "seized") (aware 9) (codes "e3")

abbrev after : Database Text
after = outcome created moved

abbrev acquired : CaseRecord
acquired = record {
  case_id = codes "c1";
  case_reference = codes "FIR-7";
  agency = codes "CID";
  police_station = none;
  investigating_officer = codes "Rao";
  classification = codes "theft";
  status = CaseStatus.acquisition;
  version = 2;
  created_at = 5;
  updated_at = 9;
}

moved_run : moved ≡ ok (after, acquired)
unfolding create_case create_rows transition_case transition_rows append_activity get_case
    get_assignment require_text empty_values normalized_time optional_text latest find_case
    find_active find_assignment has_reference insert_case insert_assignment insert_activity
    has_event events_of insert_by_sequence update_row update_status updated_rows is_allowed
    has_access revoke_user revoke_rows update_revoked verify_activity list_activity verify_events
    is_blank strip lstrip rstrip is_space lower
moved_run = refl

-- The creator has access until it is revoked.
access_run : has_access after (codes "c1") (codes "u1") ≡ ok true
unfolding create_case create_rows transition_case transition_rows append_activity get_case
    get_assignment require_text empty_values normalized_time optional_text latest find_case
    find_active find_assignment has_reference insert_case insert_assignment insert_activity
    has_event events_of insert_by_sequence update_row update_status updated_rows is_allowed
    has_access revoke_user revoke_rows update_revoked verify_activity list_activity verify_events
    is_blank strip lstrip rstrip is_space lower
access_run = refl

revoked_run :
    has_access
      (outcome after
        (revoke_user platform after (codes "c1") (codes "u1") (codes "u2") (aware 11) (codes "e4")))
      (codes "c1")
      (codes "u1")
    ≡ ok false
unfolding create_case create_rows transition_case transition_rows append_activity get_case
    get_assignment require_text empty_values normalized_time optional_text latest find_case
    find_active find_assignment has_reference insert_case insert_assignment insert_activity
    has_event events_of insert_by_sequence update_row update_status updated_rows is_allowed
    has_access revoke_user revoke_rows update_revoked verify_activity list_activity verify_events
    is_blank strip lstrip rstrip is_space lower
revoked_run = refl

activity_run :
    verify_activity platform after (codes "c1")
    ≡ ok (record {
      valid = true;
      checked_events = 3;
      message = "Activity chain verified";
      failure_sequence = none;
    })
unfolding create_case create_rows transition_case transition_rows append_activity get_case
    get_assignment require_text empty_values normalized_time optional_text latest find_case
    find_active find_assignment has_reference insert_case insert_assignment insert_activity
    has_event events_of insert_by_sequence update_row update_status updated_rows is_allowed
    has_access revoke_user revoke_rows update_revoked verify_activity list_activity verify_events
    is_blank strip lstrip rstrip is_space lower
activity_run = refl

no_lost_update_example : ¬ (
    transition_case platform after
      (codes "c1")
      CaseStatus.processing
      1
      (codes "u2")
      (codes "again")
      (aware 10)
      (codes "e4")
    ≡ ok (after, acquired))
no_lost_update_example =
    no_lost_update platform created (codes "c1") CaseStatus.acquisition CaseStatus.processing 1
      (codes "u1") (codes "u2") (codes "seized") (codes "again") (aware 9) (aware 10) (codes "e3")
      (codes "e4") after after acquired acquired moved_run
