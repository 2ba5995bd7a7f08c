-- ===== src/Cases/Activity.antt =====
-- The activity chain of a case: `_append_activity`, `list_activity`, `record_activity` and
-- `verify_activity` of cases/store.py. JSON and SHA-256 are a section parameter; what `uuid4`
-- returns is an argument.
use sih.Common.{
  ℕ, ◌+◌, true, false, not, Option, none, some, String, List, [], ◌∷◌, ◌==◌, if◌then◌else◌, text,
  ErrorKind, Result, ok, ◌>>=◌, ◌>>◌,
}
use sih.Common.Bytes.{bytes_eq}
use sih.Common.Text.{Text, codes, strip}
use sih.Cases.Domain.{CaseStatus, ActivityPayload, ActivityEvent, ActivityVerification}
use sih.Cases.Tables.{Database, insert_activity, events_of}
use sih.Cases.Queries.{DateTime, normalized_time, require_text, unless_none, require_case}

-- What the store takes from `json` and `hashlib`: `dict`s with the keys that the code uses.
pub record Platform : Type 1 where
  pub Details : Type 0
  pub created_details : (case_reference : Text) → Details
  pub access_details : (assignment_id user_id : Text) → Details
  pub status_details : (before after : CaseStatus) → (reason : Text) → Details
  -- `json.loads(_canonical_json(dict(details)).decode())`
  pub safe_details : Details → Result Details
  -- `hashlib.sha256(_canonical_json(payload)).hexdigest()`
  pub event_digest : ActivityPayload Details → Text

abbrev pub genesis_hash : Text
genesis_hash = codes "0000000000000000000000000000000000000000000000000000000000000000"

module _ (P : Platform) where
  open P use {Details, created_details, access_details, status_details, safe_details, event_digest}

  -- ORDER BY sequence DESC LIMIT 1
  unfoldable pub latest : List (ActivityEvent Details) → Option (ActivityEvent Details)
  latest [] = none
  latest (e ∷ []) = some e
  latest (e ∷ f ∷ es) = latest (f ∷ es)

  abbrev pub next_sequence : Option (ActivityEvent Details) → ℕ
  next_sequence none = 1
  next_sequence (some e) = e.payload.sequence + 1

  abbrev pub hash_of : Option (ActivityEvent Details) → Text
  hash_of none = genesis_hash
  hash_of (some e) = e.event_hash

  -- `_append_activity`
  unfoldable pub append_activity :
      Database Details
      → (case_id actor_id action : Text) → Details
      → DateTime
      → (event_id : Text) → Result (Database Details)
  append_activity db case_id actor_id action details occurred_at event_id = do
    let last = latest (events_of case_id db.activity)
    occurred ← normalized_time occurred_at
    safe ← safe_details details
    let payload : ActivityPayload Details = record {
      event_id = event_id;
      case_id = case_id;
      sequence = next_sequence last;
      actor_id = strip actor_id;
      action = action;
      occurred_at = occurred;
      details = safe;
      previous_hash = hash_of last;
    }
    insert_activity (record { payload = payload; event_hash = event_digest payload }) db

  -- `list_activity`
  unfoldable pub list_activity : Database Details → Text → Result (List (ActivityEvent Details))
  list_activity db case_id = do require_case db case_id; ok (events_of case_id db.activity)

  -- `record_activity`
  unfoldable pub record_activity :
      Database Details
      → (case_id actor_id action : Text) → Details
      → DateTime
      → (event_id : Text) → Result (Database Details × ActivityEvent Details)
  record_activity db case_id actor_id action details now event_id = do
    require_text (("actor_id", actor_id) ∷ ("action", action) ∷ [])
    require_case db case_id
    after ← append_activity db case_id actor_id action details now event_id
    row ←
        unless_none (latest (events_of case_id after.activity)) ErrorKind.case_store_error
          (text "Recorded activity could not be read back")
    ok (after, row)

  abbrev pub failed : ℕ → ℕ → String → ActivityVerification
  failed checked sequence m = record {
    valid = false;
    checked_events = checked;
    message = m;
    failure_sequence = some sequence;
  }

  -- The loop of `verify_activity`; `checked` is `expected_sequence - 1`.
  unfoldable pub verify_events : ℕ → Text → List (ActivityEvent Details) → ActivityVerification
  verify_events checked previous_hash [] = record {
    valid = true;
    checked_events = checked;
    message = "Activity chain verified";
    failure_sequence = none;
  }
  verify_events checked previous_hash (e ∷ es) =
      let later = verify_events (checked + 1) e.event_hash es in
      if not (e.payload.sequence == checked + 1)
      then failed checked e.payload.sequence "Activity sequence is not contiguous"
      else if not (bytes_eq e.payload.previous_hash previous_hash)
      then failed checked e.payload.sequence "Previous activity hash does not match"
      else if not (bytes_eq (event_digest e.payload) e.event_hash)
      then failed checked e.payload.sequence "Activity event hash does not match"
      else later

  -- `verify_activity`
  unfoldable pub verify_activity : Database Details → Text → Result ActivityVerification
  verify_activity db case_id = do
    events ← list_activity db case_id
    ok (verify_events 0 genesis_hash events)
