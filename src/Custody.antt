-- ===== src/Custody.antt =====
-- custody/ledger.py: the hash-linked custody ledger. JSON, SHA-256, the clock and `uuid4` are what
-- the ledger is given: a section parameter and the arguments of `append`.
pub mod Chain
pub mod Appending
pub mod Tamper
mod Tests
use sih.Common.{
  ℕ, suc, ◌+◌, Bool, true, false, not, Option, none, some, String, List, [], ◌∷◌, ◌++◌, length,
  ◌==◌, if◌then◌else◌, Message, text, listing, ErrorKind, Result, ok, err, raise, raise_if, ◌>>=◌,
  ◌>>◌,
}
use sih.Common.Text.{Text, is_blank}

-- The fields of a custody event that its hash covers: `hash_payload`.
pub record Payload (Details Digest : Type 0) : Type 0 where
  pub event_id : Text
  pub sequence : ℕ
  pub case_id : Text
  pub actor_id : Text
  pub actor_role : Text
  pub action : Text
  pub occurred_at : Text
  pub details : Details
  pub evidence_hashes : List (Text × Text)
  pub previous_hash : Digest

-- What the ledger takes from `json` and `hashlib`.
pub record Platform : Type 1 where
  pub Details : Type 0
  pub Canonical : Type 0
  pub Digest : Type 0
  -- `json.loads(_canonical_json(dict(details)))`, which fails on what JSON cannot hold
  pub safe_details : Details → Result Details
  pub no_details : Details
  -- `_canonical_json(payload)`: `json.dumps` with sorted keys, encoded as UTF-8. The details of an
  -- event are such that `json.dumps` takes them.
  pub canonical_json : Payload Details Digest → Canonical
  -- `hashlib.sha256(canonical).hexdigest()`
  pub hexdigest : Canonical → Digest
  pub genesis_hash : Digest
  -- `==` on digests
  pub digest_eq : Digest → Digest → Bool

-- A `datetime`: without a time zone, or with the UTC text that it normalizes to.
pub data DateTime : Type 0 where
  naive : DateTime
  aware : Text → DateTime

-- `_normalized_time`
pub normalized_time : DateTime → Result Text
normalized_time naive =
    raise ErrorKind.value_error (text "Custody timestamps must be timezone-aware")
normalized_time (aware utc) = ok utc

-- The names of the required fields that are blank.
pub empty_fields : List (String × Text) → List String
empty_fields [] = []
empty_fields ((name, value) ∷ rest) =
    let later = empty_fields rest in if is_blank value then name ∷ later else later

abbrev pub is_nil : List String → Bool
is_nil [] = true
is_nil (x ∷ xs) = false

-- The loop over `safe_hashes.items()`: whether it raises.
pub has_blank_hash : List (Text × Text) → Bool
has_blank_hash [] = false
has_blank_hash ((algorithm, digest) ∷ rest) =
    if is_blank algorithm then true else if is_blank digest then true else has_blank_hash rest

pub record CustodyVerification : Type 0 where
  pub valid : Bool
  pub checked_events : ℕ
  pub failure_sequence : Option ℕ
  pub message : String

module _ (P : Platform) where
  open P use {
    Details, Digest, safe_details, no_details, canonical_json, hexdigest, genesis_hash, digest_eq,
  }

  -- `hashlib.sha256(_canonical_json(payload)).hexdigest()`
  abbrev pub event_digest : Payload Details Digest → Digest
  event_digest payload = hexdigest (canonical_json payload)

  pub record CustodyEvent : Type 0 where
    pub payload : Payload Details Digest
    pub event_hash : Digest

  -- The arguments of `append`, with what `datetime.now` and `uuid4` return during the call.
  pub record Request : Type 0 where
    pub case_id : Text
    pub actor_id : Text
    pub actor_role : Text
    pub action : Text
    pub details : Option Details
    pub evidence_hashes : List (Text × Text)
    pub occurred_at : Option DateTime
    pub now : Text
    pub uuid : Text

  -- `self._events[-1].event_hash if self._events else GENESIS_HASH`
  pub last_hash : Digest → List CustodyEvent → Digest
  last_hash previous [] = previous
  last_hash previous (e ∷ es) = last_hash e.event_hash es

  abbrev pub or_now : Option DateTime → Text → DateTime
  or_now none now = aware now
  or_now (some t) now = t

  abbrev pub or_empty : Option Details → Details
  or_empty none = no_details
  or_empty (some d) = d

  -- `CustodyLedger.append` up to the event that it makes
  unfoldable pub new_event : List CustodyEvent → Request → Result CustodyEvent
  new_event events r = do
    let blank = empty_fields (
        ("case_id", r.case_id)
        ∷ ("actor_id", r.actor_id)
        ∷ ("actor_role", r.actor_role)
        ∷ ("action", r.action)
        ∷ [])
    raise_if (not (is_nil blank)) ErrorKind.value_error
        (listing "Custody event fields cannot be empty: " blank)
    event_time ← normalized_time (or_now r.occurred_at r.now)
    details ← safe_details (or_empty r.details)
    raise_if (has_blank_hash r.evidence_hashes) ErrorKind.value_error
        (text "Evidence hash names and values cannot be empty")
    let payload : Payload Details Digest = record {
      event_id = r.uuid;
      sequence = length events + 1;
      case_id = r.case_id;
      actor_id = r.actor_id;
      actor_role = r.actor_role;
      action = r.action;
      occurred_at = event_time;
      details = details;
      evidence_hashes = r.evidence_hashes;
      previous_hash = last_hash genesis_hash events;
    }
    let event : CustodyEvent = record { payload = payload; event_hash = event_digest payload }
    ok event

  -- `self._events.append(event)`
  abbrev pub add_event :
      List CustodyEvent → Result CustodyEvent → List CustodyEvent × Result CustodyEvent
  add_event events (err e) = (events, err e)
  add_event events (ok event) = (events ++ event ∷ [], ok event)

  -- `CustodyLedger.append`: the events of the ledger behind the call, and what it returns
  pub append : List CustodyEvent → Request → List CustodyEvent × Result CustodyEvent
  append events r = add_event events (new_event events r)

  abbrev failed : ℕ → ℕ → String → CustodyVerification
  failed checked sequence m = record {
    valid = false;
    checked_events = checked;
    failure_sequence = some sequence;
    message = m;
  }

  -- The loop of `verify`; `checked` is `expected_sequence - 1`.
  pub verify_from : ℕ → Digest → List CustodyEvent → CustodyVerification
  verify_from checked previous_hash [] = record {
    valid = true;
    checked_events = checked;
    failure_sequence = none;
    message = "Custody chain verified";
  }
  verify_from checked previous_hash (e ∷ es) =
      let later = verify_from (checked + 1) e.event_hash es in
      if not (e.payload.sequence == checked + 1)
      then failed checked e.payload.sequence "Custody sequence is not contiguous"
      else if not (digest_eq e.payload.previous_hash previous_hash)
      then failed checked e.payload.sequence "Previous custody hash does not match"
      else if not (digest_eq (event_digest e.payload) e.event_hash)
      then failed checked e.payload.sequence "Custody event hash does not match"
      else later

  -- `CustodyLedger.verify`; a chain that passes has as many events as were checked
  pub verify : List CustodyEvent → CustodyVerification
  verify events = verify_from 0 genesis_hash events
