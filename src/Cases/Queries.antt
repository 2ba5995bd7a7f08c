-- ===== src/Cases/Queries.antt =====
-- The checks and queries that the operations of `CaseStore` (cases/store.py) share.
use sih.Common.{
  is_some, ℕ, Bool, not, Option, none, some, String, List, [], ◌∷◌, if◌then◌else◌, Message, text,
  listing, ErrorKind, Error, Result, ok, err, raise, raise_if, ◌>>◌,
}
use sih.Common.Text.{Text, strip, is_blank, is_empty}
use sih.Cases.Domain.{CaseRecord, CaseAssignmentRecord}
use sih.Cases.Tables.{Database, find_case, find_assignment, find_active}

-- A `datetime`: without a time zone, or with one.
pub data DateTime : Type 0 where
  naive : DateTime
  aware : ℕ → DateTime

-- `_normalized_time`
unfoldable pub normalized_time : DateTime → Result ℕ
normalized_time naive = raise ErrorKind.value_error (text "Case timestamps must be timezone-aware")
normalized_time (aware t) = ok t

unfoldable pub empty_values : List (String × Text) → List String
empty_values [] = []
empty_values ((name, value) ∷ rest) =
    let later = empty_values rest in if is_blank value then name ∷ later else later

-- `_require_text`
unfoldable pub require_text : List (String × Text) → Result (Unit {0})
require_text values = elim (empty_values values) [
  | [] ↦ ok tt
  | name ∷ names ↦
      raise ErrorKind.value_error (listing "Required case fields cannot be empty: " (name ∷ names))
]

-- `_optional_text`
unfoldable pub optional_text : Option Text → Option Text
optional_text none = none
optional_text (some value) = if is_empty (strip value) then none else some (strip value)

-- `except sqlite3.IntegrityError: raise Kind("message")`
abbrev pub replaced : ErrorKind → Error → ErrorKind → Message → Error
replaced ErrorKind.integrity_error e k m = record { kind = k; message = m }
replaced _ e k m = e

abbrev pub except_integrity {ℓ} : {A : Type ℓ} → Result A → ErrorKind → Message → Result A
except_integrity (ok a) k m = ok a
except_integrity (err e) k m = err (replaced e.kind e k m)

abbrev pub unless_none {ℓ} : {A : Type ℓ} → Option A → ErrorKind → Message → Result A
unless_none (some a) k m = ok a
unless_none none k m = raise k m

-- `get_case`
unfoldable pub get_case : {D : Type 0} → Database D → Text → Result CaseRecord
get_case db case_id =
    unless_none (find_case case_id db.cases) ErrorKind.case_not_found_error
      (text "Case was not found")

-- `_get_assignment`
unfoldable pub get_assignment : {D : Type 0} → Database D → Text → Result CaseAssignmentRecord
get_assignment db assignment_id =
    unless_none (find_assignment assignment_id db.assignments)
      ErrorKind.case_assignment_not_found_error (text "Case assignment was not found")

-- `has_access`
unfoldable pub has_access : {D : Type 0} → Database D → Text → Text → Result Bool
has_access db case_id user_id = do
  require_text (("case_id", case_id) ∷ ("user_id", user_id) ∷ [])
  ok (is_some (find_active (strip case_id) (strip user_id) db.assignments))

-- `if not self._case_exists(case_id): raise CaseNotFoundError`
abbrev pub require_case : {D : Type 0} → Database D → Text → Result (Unit {0})
require_case db case_id =
    raise_if (not (is_some (find_case case_id db.cases))) ErrorKind.case_not_found_error
      (text "Case was not found")
