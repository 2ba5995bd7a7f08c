-- ===== src/Auth/Lookups.antt =====
-- Rules for the reads of `AuthStore`: an action that looks a user up leaves the tables alone.
use sih.Common.{◌≡◌, inl, inr, Option, none, some, Message, ErrorKind, ok, Option-cases}
use sih.Common.Text.{Text}
use sih.Auth.Domain.{User, UserRecord, user_from_row}
use sih.Auth.Tables.{Database, find_user}
use sih.Auth.Actions.{Action, ◌>>=◌}
use sih.Auth.Actions.Rules.{Leaves}
use sih.Auth.Checks.{unless_none, get_user_row, get_user}

unless_none-ok :
    {A : Type 0} (o : Option A) (k : ErrorKind) (m : Message) (a : A)
    → unless_none o k m ≡ ok a
    → o ≡ some a
unless_none-ok none k m a h = cc
unless_none-ok (some b) k m a h = cc

module _ {κ} {B : Type κ} {Post : B → Database → Type 0} {Fail : Database → Type 0} where
  pub Leaves-bind-row :
      (user_id : Text) (next : User → Action B) (db : Database)
      → Fail db
      → ((row : User) → find_user user_id db.users ≡ some row → Leaves Post Fail (next row db))
      → Leaves Post Fail ((get_user_row user_id >>= next) db)
  unfolding get_user_row ◌>>=◌
  Leaves-bind-row user_id next db failed found = elim (Option-cases (find_user user_id db.users)) [
    | inl missing ↦ rw (get_user_row, ◌>>=◌, missing) (record { outcome = failed })
    | inr (row, here) ↦ rw (get_user_row, ◌>>=◌, here) (found row here)
  ]

  pub Leaves-bind-user :
      (user_id : Text) (next : UserRecord → Action B) (db : Database)
      → Fail db
      → ((row : User)
          → find_user user_id db.users ≡ some row
          → Leaves Post Fail (next (user_from_row row) db))
      → Leaves Post Fail ((get_user user_id >>= next) db)
  unfolding get_user get_user_row ◌>>=◌
  Leaves-bind-user user_id next db failed found = elim (Option-cases (find_user user_id db.users)) [
    | inl missing ↦ rw (get_user, get_user_row, ◌>>=◌, missing) (record { outcome = failed })
    | inr (row, here) ↦ rw (get_user, get_user_row, ◌>>=◌, here) (found row here)
  ]
