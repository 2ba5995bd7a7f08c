-- ===== src/Common/Exceptions.antt =====
-- Python exceptions as values: the class that is raised and its message.
use Prim.Native.Nat.{ℕ}
use Prim.Native.String.{String}
use mathlib.Core.Path.{◌≡◌, refl}
use mathlib.Core.Logic.{◌⊎◌, inl, inr}
use mathlib.Core.Bool.{Bool, true, false}
use mathlib.Core.List.{List}

-- A literal message, or the template of an f-string with the numbers that it shows.
pub data Message : Type 0 where
  text : String → Message
  format : String → List ℕ → Message
  -- an f-string that begins with a label
  labelled : String → String → Message
  -- an f-string that ends with the joined names
  listing : String → List String → Message

-- The exception classes that the modelled code raises or lets through.
pub data ErrorKind : Type 0 where
  value_error type_error index_error lookup_error struct_error os_error : ErrorKind
  evidence_source_error hikvision_format_error extraction_error : ErrorKind
  unsupported_evidence_error ambiguous_adapter_error : ErrorKind
  -- sqlite3.IntegrityError, and the errors of the case store
  integrity_error case_not_found_error duplicate_case_reference_error : ErrorKind
  invalid_case_transition_error concurrent_case_update_error : ErrorKind
  case_assignment_already_exists_error case_assignment_not_found_error case_store_error : ErrorKind
  overflow_error unicode_error : ErrorKind
  -- the errors of the evidence catalog
  evidence_catalog_error evidence_not_found_error : ErrorKind
  -- the errors of the authentication store
  authentication_error authentication_throttled password_change_required : ErrorKind
  authorization_error auth_store_error user_not_found_error login_challenge_error : ErrorKind
  -- not an exception: the fuel of a modelled loop ran out
  out_of_fuel : ErrorKind

pub record Error : Type 0 where
  pub kind : ErrorKind
  pub message : Message

-- What a call gives back: the exception that it raised, or its value.
pub data Result {ℓ} (Value : Type ℓ) : Type ℓ where
  err : Error → Result Value
  ok : Value → Result Value

infixl 5 ◌>>=◌ ◌>>◌
-- An exception skips the statements that follow.
abbrev pub ◌>>=◌ {κ ℓ} : {X : Type κ} {Y : Type ℓ} → Result X → (X → Result Y) → Result Y
err raised >>= next = err raised
ok x >>= next = next x

-- `raise Kind("message")`
abbrev pub raise {ℓ} : {A : Type ℓ} → ErrorKind → Message → Result A
raise k m = err (record { kind = k; message = m })

-- `if condition: raise Kind("message")`
abbrev pub raise_if : Bool → ErrorKind → Message → Result (Unit {0})
raise_if true k m = raise k m
raise_if false k m = ok tt

abbrev pub ◌>>◌ {κ} : {Y : Type κ} → Result (Unit {0}) → Result Y → Result Y
first >> next = first >>= λ done. next

-- The first of two statements returned, if both did.
pub >>=-eq-ok {κ ℓ} :
    {X : Type κ} {Y : Type ℓ} (first : Result X) (next : X → Result Y) {y : Y}
    → first >>= next ≡ ok y
    → (x : X) × (first ≡ ok x) × (next x ≡ ok y)
>>=-eq-ok (err raised) next returned = cc
>>=-eq-ok (ok x) next returned = (x, refl, returned)

pub Result-cases {κ} :
    {X : Type κ} (r : Result X) → ((x : X) × (r ≡ ok x)) ⊎ ((e : Error) × (r ≡ err e))
Result-cases (err e) = inr (e, refl)
Result-cases (ok x) = inl (x, refl)

pub ok-same : {A : Type 0} {a b : A} → ok a ≡ ok b → a ≡ b
ok-same h = cc

pub err-ok : {A : Type 0} {e : Error} {a : A} → ¬ (err e ≡ ok a)
err-ok h = cc
