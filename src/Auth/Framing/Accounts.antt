-- ===== src/Auth/Framing/Accounts.antt =====
-- Every method of `AuthStore` on accounts keeps a framed property: what it does to an account is a
-- safe change.
use sih.Common.{
  ◌<◌, ◌≡◌, inl, inr, String, Bool, true, false, not, ◌&&◌, Option, none, some, leb, Bool-cases,
}
use sih.Common.Bytes.{Bytes, bytes_eq}
use sih.Common.Text.{Text, is_blank}
use sih.Auth.Domain.{Details, User, user_from_row, Role}
use sih.Auth.Tables.{Database, find_user, is_usable, count_usable}
use sih.Auth.Actions.{Action, ◌>>=◌}
use sih.Auth.Actions.Rules.{
  Leaves, Leaves-bind, Leaves-bind-lift, Leaves-bind-get, Leaves-fail_if, Leaves-transaction,
}
use sih.Auth.Checks.{
  Platform, DateTime, normalized_time, normalized_username, validated_reason, get_user,
  protect_last_administrator, revoke_user_sessions, clear_account_failures, append_event,
}
use sih.Auth.Lookups.{Leaves-bind-row, Leaves-bind-user}
use sih.Auth.Framing.{
  IsFramed, Keeps, append_event-Keeps, revoke_user_sessions-Keeps, clear_account_failures-Keeps,
  check_password-Keeps, reauthenticate_administrator-Keeps, require_administrator-Keeps,
  get_user-Keeps,
}
use sih.Auth.Accounts.{
  set_password, set_active, change_user, insert_user, is_nil, add_user, bootstrap_administrator,
  require_actor, create_user, change_password, protect_suspension, revoke_suspended,
  set_user_active, reset_password, revoke_sessions_of, recover_row, recover_administrator,
}
use sih.Auth.Framing.Changes.{
  guarded_change, mono_change, spare_lem, set_password-false_mono, set_active-true_mono,
  restore_mono,
}

module _ {P : Platform} {I : Database → Type 0} (framed : IsFramed P I) where
  change_user-Keeps :
      (user_id : Text) (f : User → User)
      → ((u : User) → is_usable u ≡ true → is_usable (f u) ≡ true)
      → Keeps P framed (change_user user_id f)
  unfolding change_user
  change_user-Keeps user_id f keeps db h =
      Leaves-bind-get _ db
        (record { outcome = framed.on_change db user_id f (mono_change db user_id f keeps) h })

  guarded_change-Keeps :
      (user_id : Text) (f : User → User) (row : User) (db : Database)
      → find_user user_id db.users ≡ some row
      → (is_usable row ≡ true → 1 < count_usable db.users)
      → I db
      → Leaves (λ done after. I after) I (change_user user_id f db)
  unfolding change_user
  guarded_change-Keeps user_id f row db found spare h = Leaves-bind-get _ db (record {
    outcome = framed.on_change db user_id f (guarded_change db user_id f row found spare) h;
  })

  -- What `_protect_last_administrator` lets through.
  abbrev IsSpared : Text → User → Database → Type 0
  IsSpared user_id row after =
      I after
      × ((find_user user_id after.users ≡ some row)
          × (is_usable row ≡ true → 1 < count_usable after.users))

  protect_last_administrator-IsSpared :
      (user_id : Text) (row : User) (db : Database)
      → find_user user_id db.users ≡ some row
      → I db
      → Leaves
          (λ done after. IsSpared user_id row after)
          I
          (protect_last_administrator (user_from_row row) db)
  unfolding protect_last_administrator ◌>>=◌ user_from_row
  protect_last_administrator-IsSpared user_id row db found h =
      elim (Bool-cases (is_usable row && leb (count_usable db.users) 1)) [
        | inl last ↦ rw (◌>>=◌, last) (record { outcome = h })
        | inr spare ↦
            rw (◌>>=◌, spare) (record { outcome = (h, (found, spare_lem (is_usable row) _ spare)) })
      ]

  insert_user-Keeps : (u : User) → Keeps P framed (insert_user u)
  unfolding insert_user
  insert_user-Keeps u db h =
      Leaves-bind-get _ db
        (Leaves-fail_if _ _ _ _ db (λ _. h) λ _. record { outcome = framed.on_insert db u h })

  add_user-Keeps :
      (username display_name password : Text) (role : Role) (now : DateTime) (must_change : Bool)
      (user_id : Text) (salt : Bytes)
      → Keeps P framed (add_user P username display_name password role now must_change user_id salt)
  unfolding add_user
  add_user-Keeps username display_name password role now must_change user_id salt db h =
      Leaves-bind-lift (normalized_username P username) _ db h λ normalized _.
        Leaves-fail_if (is_blank display_name) _ _ _ db (λ _. h)
          λ _. Leaves-bind-lift (P.hash_password password salt) _ db h λ encoded _.
            Leaves-bind-lift (normalized_time now) _ db h λ created _.
              Leaves-bind _ _ db (insert_user-Keeps _ db h)
                λ inserted after kept. record { outcome = kept }

  pub bootstrap_administrator-Keeps :
      (username display_name password : Text) (now : DateTime) (user_id : Text) (salt : Bytes)
      → Keeps P framed (bootstrap_administrator P username display_name password now user_id salt)
  unfolding bootstrap_administrator
  bootstrap_administrator-Keeps username display_name password now user_id salt db h =
      Leaves-transaction _ db h (
        Leaves-bind-get _ db (
          Leaves-fail_if (not (is_nil db.users)) _ _ _ db (λ _. h)
            λ _.
              Leaves-bind _ _ db
                (add_user-Keeps username display_name password Role.administrator now false user_id
                  salt db h)
                λ user after kept.
                  Leaves-bind _ _ after (append_event-Keeps P framed _ _ _ _ _ after kept)
                    λ logged last at_last. record { outcome = at_last }))

  require_actor-Keeps : (actor_id : Option Text) → Keeps P framed (require_actor P actor_id)
  require_actor-Keeps none db h = record { outcome = h }
  require_actor-Keeps (some actor_id) db h =
      Leaves-bind _ _ db (require_administrator-Keeps P framed actor_id db h)
        λ row after kept. record { outcome = kept }

  pub create_user-Keeps :
      (username display_name password : Text) (role : Role) (now : DateTime)
      (actor_id : Option Text) (must_change : Bool) (user_id : Text) (salt : Bytes)
      → Keeps P framed
          (create_user P username display_name password role now actor_id must_change user_id salt)
  unfolding create_user
  create_user-Keeps username display_name password role now actor_id must_change user_id salt db h =
      Leaves-transaction _ db h (
        Leaves-bind _ _ db (require_actor-Keeps actor_id db h) λ allowed before at_first.
          Leaves-bind _ _ before
            (add_user-Keeps username display_name password role now must_change user_id salt before
              at_first)
            λ user after kept.
              Leaves-bind _ _ after (append_event-Keeps P framed _ _ _ _ _ after kept)
                λ logged last at_last. record { outcome = at_last })

  pub change_password-Keeps :
      (user_id current_password new_password : Text) (now : DateTime) (salt : Bytes)
      → Keeps P framed (change_password P user_id current_password new_password now salt)
  unfolding change_password
  change_password-Keeps user_id current_password new_password now salt db h =
      Leaves-transaction _ db h (
        Leaves-bind-row user_id _ db h λ row _.
          Leaves-bind _ _ db
            (check_password-Keeps P framed (some row) row.username current_password now false _ db
              h)
            λ checked before at_first.
              Leaves-fail_if (bytes_eq current_password new_password) _ _ _ before (λ _. at_first)
                λ _.
                  Leaves-bind-lift (P.hash_password new_password salt) _ before at_first
                    λ encoded _.
                      Leaves-bind _ _ before
                        (change_user-Keeps user_id _ (set_password-false_mono encoded) before
                          at_first)
                        λ changed after kept.
                          Leaves-bind _ _ after
                            (revoke_user_sessions-Keeps P framed user_id now after kept)
                            λ revoked last at_last.
                              append_event-Keeps P framed _ _ _ now _ last at_last)

  conclude-Keeps :
      (user_id username : Text) (actor_id : Option Text) (action : String) (now : DateTime)
      (details : Details)
      → Keeps P framed (
          revoke_user_sessions user_id now >>= λ revoked.
          clear_account_failures P username >>= λ cleared.
          append_event P actor_id user_id action now details >>= λ logged. get_user user_id)
  conclude-Keeps user_id username actor_id action now details db h =
      Leaves-bind _ _ db (revoke_user_sessions-Keeps P framed user_id now db h) λ revoked db' kept.
        Leaves-bind _ _ db' (clear_account_failures-Keeps P framed username db' kept)
          λ cleared after still.
            Leaves-bind _ _ after
              (append_event-Keeps P framed actor_id user_id action now details after still)
              λ logged last at_last. get_user-Keeps P framed user_id last at_last

  protect_suspension-change :
      (active : Bool) (actor_id user_id : Text) (row : User) {A : Type 0} (next : Action A)
      (db : Database)
      → find_user user_id db.users ≡ some row
      → I db
      → ((after : Database) → I after → Leaves (λ a last. I last) I (next after))
      → Leaves
          (λ a last. I last)
          I
          ((protect_suspension P active actor_id user_id (user_from_row row) >>= λ allowed.
              change_user user_id (set_active active) >>= λ done. next)
            db)
  protect_suspension-change true actor_id user_id row next db found h after_it =
      Leaves-bind {Mid = λ done after. I after} _ _ db (record { outcome = h })
        λ allowed db' kept.
          Leaves-bind _ _ db'
            (change_user-Keeps user_id (set_active true) set_active-true_mono db' kept)
            λ changed after still. after_it after still
  protect_suspension-change false actor_id user_id row next db found h after_it =
      Leaves-bind _ _ db
        (Leaves-fail_if (bytes_eq user_id actor_id) _ _ _ db (λ _. h)
          λ _. protect_last_administrator-IsSpared user_id row db found h)
        λ allowed db' spared.
          Leaves-bind _ _ db'
            (guarded_change-Keeps user_id (set_active false) row db' spared.1.0 spared.1.1 spared.0)
            λ changed after kept. after_it after kept

  revoke_suspended-Keeps :
      (active : Bool) (user_id : Text) (now : DateTime)
      → Keeps P framed (revoke_suspended P active user_id now)
  revoke_suspended-Keeps true user_id now db h = record { outcome = h }
  revoke_suspended-Keeps false user_id now db h =
      revoke_user_sessions-Keeps P framed user_id now db h

  pub set_user_active-Keeps :
      (actor_id user_id : Text) (active : Bool) (current_password reason : Text) (now : DateTime)
      → Keeps P framed (set_user_active P actor_id user_id active current_password reason now)
  unfolding set_user_active
  set_user_active-Keeps actor_id user_id active current_password reason now db h =
      Leaves-bind-lift (validated_reason reason) _ db h λ given _. Leaves-transaction _ db h (
        Leaves-bind _ _ db
          (reauthenticate_administrator-Keeps P framed actor_id current_password now db h)
          λ checked before at_first. Leaves-bind-user user_id _ before at_first λ row found.
            protect_suspension-change active actor_id user_id row _ before found at_first
              λ after kept.
                Leaves-bind _ _ after (revoke_suspended-Keeps active user_id now after kept)
                  λ revoked third at_third.
                    Leaves-bind _ _ third (append_event-Keeps P framed _ _ _ now _ third at_third)
                      λ logged last at_last. get_user-Keeps P framed user_id last at_last)

  pub reset_password-Keeps :
      (actor_id user_id new_password current_password reason : Text) (now : DateTime) (salt : Bytes)
      → Keeps P framed
          (reset_password P actor_id user_id new_password current_password reason now salt)
  unfolding reset_password
  reset_password-Keeps actor_id user_id new_password current_password reason now salt db h =
      Leaves-bind-lift (validated_reason reason) _ db h λ given _. Leaves-transaction _ db h (
        Leaves-bind _ _ db
          (reauthenticate_administrator-Keeps P framed actor_id current_password now db h)
          λ checked before at_first. Leaves-bind-user user_id _ before at_first λ row found.
            Leaves-fail_if (bytes_eq user_id actor_id) _ _ _ before (λ _. at_first)
              λ _.
                Leaves-fail_if _ _ _ _ before (λ _. at_first)
                  λ _.
                    Leaves-bind _ _ before
                      (protect_last_administrator-IsSpared user_id row before found at_first)
                      λ allowed db' spared. Leaves-bind-row user_id _ db' spared.0 λ again _.
                        Leaves-fail_if (P.verify_password new_password again.password_hash) _ _ _
                          db' (λ _. spared.0)
                          λ _.
                            Leaves-bind-lift (P.hash_password new_password salt) _ db' spared.0
                              λ encoded _.
                                Leaves-bind _ _ db'
                                  (guarded_change-Keeps user_id (set_password encoded true) row db'
                                    spared.1.0 spared.1.1 spared.0)
                                  λ changed after kept.
                                    conclude-Keeps user_id (user_from_row row).username _ _ now _
                                      after kept)

  pub revoke_sessions_of-Keeps :
      (actor_id user_id current_password reason : Text) (now : DateTime)
      → Keeps P framed (revoke_sessions_of P actor_id user_id current_password reason now)
  unfolding revoke_sessions_of
  revoke_sessions_of-Keeps actor_id user_id current_password reason now db h =
      Leaves-bind-lift (validated_reason reason) _ db h λ given _. Leaves-transaction _ db h (
        Leaves-bind _ _ db
          (reauthenticate_administrator-Keeps P framed actor_id current_password now db h)
          λ checked before at_first. Leaves-bind-user user_id _ before at_first λ row found.
            Leaves-bind _ _ before (revoke_user_sessions-Keeps P framed user_id now before at_first)
              λ revoked after kept. append_event-Keeps P framed _ _ _ now _ after kept)

  recover_row-Keeps :
      (row : User) (normalized new_password : Text) (now : DateTime) (salt : Bytes)
      → Keeps P framed (recover_row P row normalized new_password now salt)
  unfolding recover_row
  recover_row-Keeps row normalized new_password now salt db h =
      Leaves-fail_if _ _ _ _ db (λ _. h)
        λ _. Leaves-bind-lift (P.hash_password new_password salt) _ db h λ encoded _.
          Leaves-bind _ _ db (change_user-Keeps row.user_id _ (restore_mono encoded) db h)
            λ changed after kept. conclude-Keeps row.user_id normalized _ _ now _ after kept

  pub recover_administrator-Keeps :
      (username new_password : Text) (now : DateTime) (salt : Bytes)
      → Keeps P framed (recover_administrator P username new_password now salt)
  unfolding recover_administrator
  recover_administrator-Keeps username new_password now salt db h =
      Leaves-bind-lift (normalized_username P username) _ db h λ normalized _.
        Leaves-transaction _ db h (
          Leaves-bind-get _ db (
            Leaves-bind-lift _ _ db h
              λ row _. recover_row-Keeps row normalized new_password now salt db h))
