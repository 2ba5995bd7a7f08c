-- ===== src/Auth/Actions.antt =====
-- Methods of `AuthStore` as functions of its database, and `_write_transaction`: an authentication
-- error keeps what the block wrote, any other error takes it back.
pub mod Rules
use sih.Common.{Bool, true, false, if◌then◌else◌, Message, ErrorKind, Result, ok, err, raise}
use sih.Auth.Tables.{Database}

abbrev pub Action {ℓ} : Type ℓ → Type ℓ
Action A = Database → Database × Result A

-- What runs behind a statement that ended like this.
abbrev pub continue {ℓ κ} :
    {A : Type ℓ} {B : Type κ} → Database × Result A → (A → Action B) → Database × Result B
continue (db, ok a) next = next a db
continue (db, err e) next = (db, err e)

infixl 5 ◌>>=◌ ◌>>◌
unfoldable pub ◌>>=◌ {ℓ κ} : {A : Type ℓ} {B : Type κ} → Action A → (A → Action B) → Action B
◌>>=◌ first next db = continue (first db) next

abbrev pub ◌>>◌ {κ} : {B : Type κ} → Action (Unit {0}) → Action B → Action B
first >> next = first >>= λ done. next

abbrev pub pure {ℓ} : {A : Type ℓ} → A → Action A
pure a db = (db, ok a)

-- A computation that reads and writes no table.
abbrev pub lift {ℓ} : {A : Type ℓ} → Result A → Action A
lift r db = (db, r)

abbrev pub fail {ℓ} : {A : Type ℓ} → ErrorKind → Message → Action A
fail k m = lift (raise k m)

-- `if condition: raise Kind("message")`
abbrev pub fail_if : Bool → ErrorKind → Message → Action (Unit {0})
fail_if true k m = fail k m
fail_if false k m = pure tt

abbrev pub get : Action Database
get db = (db, ok db)

abbrev pub put : Database → Action (Unit {0})
put after db = (after, ok tt)

-- `isinstance(exc, AuthenticationError)`
abbrev pub is_authentication : ErrorKind → Bool
is_authentication ErrorKind.authentication_error = true
is_authentication ErrorKind.authentication_throttled = true
is_authentication ErrorKind.password_change_required = true
is_authentication _ = false

abbrev pub settle {ℓ} : {A : Type ℓ} → Database → Database × Result A → Database × Result A
settle before (after, ok a) = (after, ok a)
settle before (after, err e) = (if is_authentication e.kind then after else before, err e)

-- `_write_transaction`
unfoldable pub transaction {ℓ} : {A : Type ℓ} → Action A → Action A
transaction block db = settle db (block db)
