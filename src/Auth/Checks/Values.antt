-- ===== src/Auth/Checks/Values.antt =====
-- What `AuthStore` is given, its times, limits and reasons (auth/store.py).
use sih.Common.{
  ℕ, ◌+◌, ◌-◌, ◌*◌, Bool, false, not, ◌||◌, [], ◌∷◌, ◌++◌, length, ltb, ◌==◌, if◌then◌else◌, text,
  ErrorKind, Result, ok, raise,
}
use sih.Common.Bytes.{Bytes}
use sih.Common.Text.{Text, codes, strip, is_space, is_empty}
use sih.Auth.Domain.{EventPayload}

-- What the store takes from the standard library's tables of characters, `hashlib` and the
-- password hasher, and the two numbers of its constructor.
pub record Platform : Type 0 where
  pub casefold : Text → Text
  pub is_printable : ℕ → Bool
  pub upper : Text → Text
  -- `_account_key` and `_token_hash`, on texts that UTF-8 encodes
  pub account_key : Text → Text
  pub token_hash : Text → Text
  -- `_event_digest`
  pub event_digest : EventPayload → Text
  pub hash_password : Text → (salt : Bytes) → Result Text
  pub verify_password : Text → Text → Bool
  pub session_lifetime : ℕ
  pub idle_timeout : ℕ

-- A `datetime`: without a time zone, or with one.
pub data DateTime : Type 0 where
  naive : DateTime
  aware : ℕ → DateTime

abbrev pub second : ℕ
second = 1000000

abbrev pub minute : ℕ
minute = 60 * second

abbrev pub day : ℕ
day = 86400 * second

-- `datetime.max`
abbrev pub last_time : ℕ
last_time = 3652059 * day - 1

-- The checks of the constructor.
unfoldable pub check_settings : ℕ → ℕ → Result (Unit {0})
check_settings session_lifetime idle_timeout =
    if session_lifetime == 0 || ltb (7 * day) session_lifetime
    then raise ErrorKind.value_error (text "Session lifetime must be between zero and seven days")
    else if ltb idle_timeout second || ltb (7 * day) idle_timeout
    then raise ErrorKind.value_error (text "Idle timeout must be between one second and seven days")
    else ok tt

-- `_normalized_time`
unfoldable pub normalized_time : DateTime → Result ℕ
normalized_time naive =
    raise ErrorKind.value_error (text "Authentication timestamps must be timezone-aware")
normalized_time (aware t) = ok t

-- `time + duration`
unfoldable pub later : ℕ → ℕ → Result ℕ
later time duration =
    if ltb last_time (time + duration)
    then raise ErrorKind.overflow_error (text "date value out of range")
    else ok (time + duration)

-- `time - duration`
unfoldable pub earlier : ℕ → ℕ → Result ℕ
earlier time duration =
    if ltb time duration
    then raise ErrorKind.overflow_error (text "date value out of range")
    else ok (time - duration)

-- `_validated_reason`
unfoldable pub validated_reason : Text → Result Text
validated_reason reason =
    let normalized = strip reason in
    if is_empty normalized || ltb 1000 (length normalized)
    then raise ErrorKind.value_error
        (text "A reason containing between 1 and 1000 characters is required")
    else ok normalized

-- `any(character.isspace() or not character.isprintable() …)`
unfoldable pub any_hidden : (ℕ → Bool) → Text → Bool
any_hidden is_printable [] = false
any_hidden is_printable (c ∷ s) = is_space c || (not (is_printable c) || any_hidden is_printable s)

abbrev pub failure_window : ℕ
failure_window = 15 * minute

abbrev pub account_failure_limit : ℕ
account_failure_limit = 5

abbrev pub global_failure_limit : ℕ
global_failure_limit = 50

abbrev pub no_hash : Text
no_hash = codes "0000000000000000000000000000000000000000000000000000000000000000"

-- The hash that a password is checked against where there is no account.
abbrev pub decoy_hash : Text
decoy_hash = codes "forenx-scrypt-v1$16384$8$1$00000000000000000000000000000000$" ++ no_hash
