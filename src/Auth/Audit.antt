-- ===== src/Auth/Audit.antt =====
-- The reads of `AuthStore` (auth/store.py): its counts and lists, and `verify_auth_events`.
use sih.Common.{
  ℕ, ◌+◌, Bool, true, false, ◌&&◌, ◌||◌, Option, none, some, List, [], ◌∷◌, ◌++◌, map, length, take,
  ltb, leb, ◌==◌, if◌then◌else◌, text, ErrorKind, Result, ok, raise, ◌>>=◌,
}
use sih.Common.Bytes.{bytes_eq}
use sih.Common.Int.{ℤ, pos, negsuc}
use sih.Common.Text.{Text, lower, text_lt}
use sih.Auth.Domain.{User, UserRecord, user_from_row, AuthEvent, AuthAuditVerification}
use sih.Auth.Tables.{Database}
use sih.Auth.Checks.{Platform, no_hash}

-- `count_users`
unfoldable pub count_users : Database → ℕ
count_users db = length db.users

-- ORDER BY display_name COLLATE NOCASE, user_id
abbrev pub user_before : User → User → Bool
user_before u v =
    text_lt (lower u.display_name) (lower v.display_name)
    || (bytes_eq (lower u.display_name) (lower v.display_name) && text_lt u.user_id v.user_id)

unfoldable pub insert_ordered : User → List User → List User
insert_ordered u [] = u ∷ []
insert_ordered u (v ∷ us) =
    let later = insert_ordered u us in if user_before v u then v ∷ later else u ∷ v ∷ us

unfoldable pub order_users : List User → List User
order_users [] = []
order_users (u ∷ us) = insert_ordered u (order_users us)

-- `list_users`
unfoldable pub list_users : Database → List UserRecord
list_users db = map user_from_row (order_users db.users)

abbrev pub event_limit : ℤ → Result ℕ
event_limit (pos n) =
    if leb 1 n && leb n 1000
    then ok n
    else raise ErrorKind.value_error (text "Audit event limit must be between 1 and 1000")
event_limit (negsuc n) =
    raise ErrorKind.value_error (text "Audit event limit must be between 1 and 1000")

abbrev pub event_cursor : Option ℤ → Result (Option ℕ)
event_cursor none = ok none
event_cursor (some (pos n)) =
    if ltb n 1
    then raise ErrorKind.value_error (text "Audit cursor must be a positive sequence number")
    else ok (some n)
event_cursor (some (negsuc n)) =
    raise ErrorKind.value_error (text "Audit cursor must be a positive sequence number")

abbrev pub is_before : Option ℕ → AuthEvent → Bool
is_before none e = true
is_before (some before) e = ltb e.payload.sequence before

-- The events of the WHERE, in the order of ORDER BY sequence DESC.
unfoldable pub newest_first : Option ℕ → List AuthEvent → List AuthEvent
newest_first before [] = []
newest_first before (e ∷ es) = newest_first before es ++ (if is_before before e then e ∷ [] else [])

-- `list_auth_events`
unfoldable pub list_auth_events : ℤ → Option ℤ → Database → Result (List AuthEvent)
list_auth_events limit before db = do
  count ← event_limit limit
  cursor ← event_cursor before
  ok (take count (newest_first cursor db.events))

module _ (P : Platform) where
  open P use {event_digest}

  -- The loop of `verify_auth_events`. The rows of the model hold what JSON and `datetime` read; a
  -- hash that `compare_digest` refuses, as it is not ASCII, is not the digest either.
  unfoldable pub check_events :
      (checked : ℕ) (previous : Text) → List AuthEvent → AuthAuditVerification
  check_events checked previous [] = record { valid = true; checked_events = checked }
  check_events checked previous (e ∷ es) =
      let rest = check_events (checked + 1) e.event_hash es in
      if (e.payload.sequence == checked + 1)
        && (bytes_eq e.payload.previous_hash previous
            && bytes_eq e.event_hash (event_digest e.payload))
      then rest
      else record { valid = false; checked_events = checked }

  -- `verify_auth_events`
  unfoldable pub verify_auth_events : Database → AuthAuditVerification
  verify_auth_events db = check_events 0 no_hash db.events
