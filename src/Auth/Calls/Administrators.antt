-- ===== src/Auth/Calls/Administrators.antt =====
-- The last usable administrator of `AuthStore`.
use sih.Common.{◌+◌, ◌≤◌, ◌≡◌, refl, true, false, not, List, [], ◌∷◌, ◌++◌, ok, arith}
use sih.Common.Bytes.{Bytes}
use sih.Common.Text.{Text, is_blank}
use sih.Auth.Domain.{Role, User, UserRecord}
use sih.Auth.Tables.{Database, count_usable, is_usable}
use sih.Auth.Actions.Rules.{
  Leaves, Leaves-bind, Leaves-bind-lift, Leaves-bind-get, Leaves-fail_if, Leaves-transaction,
  Leaves-weaken, Leaves-value,
}
use sih.Auth.Checks.{Platform, DateTime, normalized_time, normalized_username}
use sih.Auth.Accounts.{bootstrap_administrator, add_user, insert_user, is_nil}
use sih.Auth.Framing.{IsFramed, append_event-Keeps}
use sih.Auth.Calls.{Call, run, run-Keeps}

abbrev pub HasAdministrator : Database → Type 0
HasAdministrator db = 1 ≤ count_usable db.users

count_usable-append :
    (us vs : List User) → count_usable (us ++ vs) ≡ count_usable us + count_usable vs
unfolding count_usable
count_usable-append [] vs = omega arith
count_usable-append (u ∷ us) vs = omega (arith, count_usable-append us vs)

pub HasAdministrator-IsFramed : (P : Platform) → IsFramed P HasAdministrator
HasAdministrator-IsFramed P = record {
  on_sessions = λ db ss h. h;
  on_challenges = λ db cs h. h;
  on_event = λ db actor_id subject action time details h. h;
  on_drop = λ db cutoff h. h;
  on_clear = λ db username h. h;
  on_failure = λ db username time few total h. h;
  on_insert = λ db u h. omega (arith, count_usable-append db.users (u ∷ []));
  on_change = λ db user_id f safe h. safe.remains h;
}

insert_user-usable :
    (u : User) (db : Database)
    → is_usable u ≡ true
    → Leaves (λ done after. HasAdministrator after) (λ after. Unit {0}) (insert_user u db)
unfolding insert_user count_usable
insert_user-usable u db usable = Leaves-bind-get _ db (
    Leaves-fail_if _ _ _ _ db (λ _. tt)
      λ _. record {
        outcome =
            let appended = count_usable-append db.users (u ∷ []) in
            omega (arith, rw usable at appended);
      })

module _ (P : Platform) where
  add_user-usable :
      (username display_name password : Text) (now : DateTime) (user_id : Text) (salt : Bytes)
      (db : Database)
      → Leaves
          (λ user after. HasAdministrator after)
          (λ after. Unit {0})
          (add_user P username display_name password Role.administrator now false user_id salt db)
  unfolding add_user
  add_user-usable username display_name password now user_id salt db =
      Leaves-bind-lift (normalized_username P username) _ db tt λ normalized _.
        Leaves-fail_if (is_blank display_name) _ _ _ db (λ _. tt)
          λ _. Leaves-bind-lift (P.hash_password password salt) _ db tt λ encoded _.
            Leaves-bind-lift (normalized_time now) _ db tt λ created _.
              Leaves-bind _ _ db (insert_user-usable _ db refl)
                λ inserted after usable. record { outcome = usable }

  bootstrap_administrator-usable :
      (username display_name password : Text) (now : DateTime) (user_id : Text) (salt : Bytes)
      (db : Database)
      → Leaves
          (λ user after. HasAdministrator after)
          (λ after. Unit {0})
          (bootstrap_administrator P username display_name password now user_id salt db)
  unfolding bootstrap_administrator
  bootstrap_administrator-usable username display_name password now user_id salt db =
      Leaves-transaction _ db tt (
        Leaves-bind-get _ db (
          Leaves-fail_if (not (is_nil db.users)) _ _ _ db (λ _. tt)
            λ _.
              Leaves-bind _ _ db
                (add_user-usable username display_name password now user_id salt db)
                λ user after usable.
                  Leaves-bind _ _ after
                    (Leaves-weaken _ (λ done last at_last. at_last) (λ last at_last. tt)
                      (append_event-Keeps P (HasAdministrator-IsFramed P) _ _ _ _ _ after usable))
                    λ done last at_last. record { outcome = at_last }))

  -- Once `bootstrap_administrator` has returned, whatever calls follow, whether they return or raise:
  -- there is an active administrator with a permanent password.
  pub HasAdministrator-run :
      (username display_name password : Text) (now : DateTime) (user_id : Text) (salt : Bytes)
      (db after : Database) (user : UserRecord) (calls : List Call)
      → bootstrap_administrator P username display_name password now user_id salt db
        ≡ (after, ok user)
      → HasAdministrator (run P calls after)
  HasAdministrator-run username display_name password now user_id salt db after user calls
        returned =
      run-Keeps (HasAdministrator-IsFramed P) calls after (
        Leaves-value _ user after
          (bootstrap_administrator-usable username display_name password now user_id salt db)
          returned)
