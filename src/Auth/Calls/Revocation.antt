-- ===== src/Auth/Calls/Revocation.antt =====
-- The calls of `AuthStore` that revoke the sessions of a user, and `resolve_session` behind them.
use sih.Common.{
  some-same, ℕ, ◌≡◌, ◌≢◌, ◌∙◌, ap, sym, subst, refl, inl, inr, Bool, false, ◌&&◌, Option, some,
  String, List, [], ◌∷◌, ok, Bool-cases,
}
use sih.Common.Bytes.{Bytes, bytes_eq, bytes_eq→eq, bytes_eq_refl}
use sih.Common.Text.{Text}
use sih.Auth.Domain.{User, UserRecord, user_from_row, Session, Details}
use sih.Auth.Tables.{Database, find_user, find_session, is_open, revoke_sessions}
use sih.Auth.Actions.{Action, ◌>>=◌}
use sih.Auth.Actions.Rules.{
  Leaves, Leaves-bind, Leaves-bind-lift, Leaves-bind-get, Leaves-fail_if, Leaves-transaction,
  Leaves-value, Leaves-any,
}
use sih.Auth.Checks.{
  Platform, DateTime, normalized_time, validated_reason, get_user, revoke_user_sessions,
  append_event, clear_account_failures,
}
use sih.Auth.Lookups.{Leaves-bind-row, Leaves-bind-user}
use sih.Auth.Sessions.{resolve_session}
use sih.Auth.Accounts.{change_password, set_user_active, reset_password}
use sih.Auth.Calls.Resolving.{resolve_session-IsAdmitted}

-- No open session of the user is found.
abbrev IsRevoked : Text → List Session → Type 0
IsRevoked user_id ss =
    (hash : Text) (s : Session)
    → find_session hash ss ≡ some s
    → s.user_id ≡ user_id
    → is_open s ≡ false

is_open-other :
    (user_id : Text) (t : Session)
    → bytes_eq t.user_id user_id && is_open t ≡ false
    → t.user_id ≡ user_id
    → is_open t ≡ false
is_open-other user_id t untouched own = rw (own, bytes_eq_refl user_id) at untouched

revoke_sessions-IsRevoked :
    (user_id : Text) (time : ℕ) (ss : List Session)
    → IsRevoked user_id (revoke_sessions user_id time ss)
unfolding revoke_sessions find_session
revoke_sessions-IsRevoked user_id time [] hash s found own = cc
revoke_sessions-IsRevoked user_id time (t ∷ ss) hash s found own =
    elim (Bool-cases (bytes_eq t.token_hash hash)) [
      | inr other ↦ elim (Bool-cases (bytes_eq t.user_id user_id && is_open t)) [
        | inl now_revoked ↦
            revoke_sessions-IsRevoked user_id time ss hash s (rw (now_revoked, other) at found) own
        | inr untouched ↦
            revoke_sessions-IsRevoked user_id time ss hash s (rw (untouched, other) at found) own
      ]
      | inl here ↦ elim (Bool-cases (bytes_eq t.user_id user_id && is_open t)) [
        | inl now_revoked ↦
            subst (λ x. is_open x ≡ false) (some-same (rw (now_revoked, here) at found)) refl
        | inr untouched ↦
            subst (λ x. x.user_id ≡ user_id → is_open x ≡ false)
              (some-same (rw (untouched, here) at found)) (is_open-other user_id t untouched) own
      ]
    ]

abbrev Revokes {ℓ} : {A : Type ℓ} → Text → Action A → Type 0
Revokes user_id m =
    (db : Database)
    → Leaves (λ a after. IsRevoked user_id after.sessions) (λ after. Unit {0}) (m db)

revoke_user_sessions-Revokes :
    (user_id : Text) (now : DateTime) → Revokes user_id (revoke_user_sessions user_id now)
unfolding revoke_user_sessions
revoke_user_sessions-Revokes user_id now db =
    Leaves-bind-lift (normalized_time now) _ db tt λ time _.
      Leaves-bind-get _ db (record { outcome = revoke_sessions-IsRevoked user_id time db.sessions })

find_user-id :
    (user_id : Text) (us : List User) (row : User)
    → find_user user_id us ≡ some row
    → row.user_id ≡ user_id
unfolding find_user
find_user-id user_id [] row found = cc
find_user-id user_id (u ∷ us) row found = elim (Bool-cases (bytes_eq u.user_id user_id)) [
  | inl here ↦
      subst (λ x. x.user_id ≡ user_id) (some-same (rw here at found)) (bytes_eq→eq _ _ here)
  | inr other ↦ find_user-id user_id us row (rw other at found)
]

module _ (P : Platform) where
  -- What follows on a revocation leaves the sessions alone.
  append_event-IsRevoked :
      (user_id : Text) (actor_id : Option Text) (subject : Text) (action : String) (now : DateTime)
      (details : Details) (db : Database)
      → IsRevoked user_id db.sessions
      → Leaves
          (λ done after. IsRevoked user_id after.sessions)
          (λ after. Unit {0})
          (append_event P actor_id subject action now details db)
  unfolding append_event
  append_event-IsRevoked user_id actor_id subject action now details db h =
      Leaves-bind-lift (normalized_time now) _ db tt
        λ time _. Leaves-bind-get _ db (record { outcome = h })

  clear_account_failures-IsRevoked :
      (user_id username : Text) (db : Database)
      → IsRevoked user_id db.sessions
      → Leaves
          (λ done after. IsRevoked user_id after.sessions)
          (λ after. Unit {0})
          (clear_account_failures P username db)
  unfolding clear_account_failures
  clear_account_failures-IsRevoked user_id username db h =
      Leaves-bind-get _ db (record { outcome = h })

  get_user-IsRevoked :
      (user_id : Text) (db : Database)
      → IsRevoked user_id db.sessions
      → Leaves
          (λ user after. IsRevoked user_id after.sessions)
          (λ after. Unit {0})
          (get_user user_id db)
  unfolding get_user
  get_user-IsRevoked user_id db h = Leaves-bind-row user_id _ db tt λ row _. record { outcome = h }

  conclude-Revokes :
      (user_id username : Text) (actor_id : Option Text) (action : String) (now : DateTime)
      (details : Details)
      → Revokes user_id (
          revoke_user_sessions user_id now >>= λ revoked.
          clear_account_failures P username >>= λ cleared.
          append_event P actor_id user_id action now details >>= λ logged. get_user user_id)
  conclude-Revokes user_id username actor_id action now details db =
      Leaves-bind _ _ db (revoke_user_sessions-Revokes user_id now db) λ revoked first h.
        Leaves-bind _ _ first (clear_account_failures-IsRevoked user_id username first h)
          λ cleared second still.
            Leaves-bind _ _ second
              (append_event-IsRevoked user_id actor_id user_id action now details second still)
              λ logged last at_last. get_user-IsRevoked user_id last at_last

  change_password-Revokes :
      (user_id current_password new_password : Text) (now : DateTime) (salt : Bytes)
      → Revokes user_id (change_password P user_id current_password new_password now salt)
  unfolding change_password
  change_password-Revokes user_id current_password new_password now salt db =
      Leaves-transaction _ db tt (
        Leaves-bind-row user_id _ db tt λ row _.
          Leaves-bind _ _ db (Leaves-any _) λ checked first _.
            Leaves-fail_if (bytes_eq current_password new_password) _ _ _ first (λ _. tt)
              λ _. Leaves-bind-lift (P.hash_password new_password salt) _ first tt λ encoded _.
                Leaves-bind _ _ first (Leaves-any _) λ changed second _.
                  Leaves-bind _ _ second (revoke_user_sessions-Revokes user_id now second)
                    λ done third h. append_event-IsRevoked user_id _ _ _ now _ third h)

  suspend-Revokes :
      (actor_id user_id current_password reason : Text) (now : DateTime)
      → Revokes user_id (set_user_active P actor_id user_id false current_password reason now)
  unfolding set_user_active
  suspend-Revokes actor_id user_id current_password reason now db =
      Leaves-bind-lift (validated_reason reason) _ db tt λ given _. Leaves-transaction _ db tt (
        Leaves-bind _ _ db (Leaves-any _) λ checked first _.
          Leaves-bind-user user_id _ first tt λ row _.
            Leaves-bind _ _ first (Leaves-any _) λ spared second _.
              Leaves-bind _ _ second (Leaves-any _) λ changed third _.
                Leaves-bind _ _ third (revoke_user_sessions-Revokes user_id now third)
                  λ done fourth h.
                    Leaves-bind _ _ fourth (append_event-IsRevoked user_id _ _ _ now _ fourth h)
                      λ logged last at_last. get_user-IsRevoked user_id last at_last)

  reset_password-Revokes :
      (actor_id user_id new_password current_password reason : Text) (now : DateTime) (salt : Bytes)
      → Revokes user_id
          (reset_password P actor_id user_id new_password current_password reason now salt)
  unfolding reset_password
  reset_password-Revokes actor_id user_id new_password current_password reason now salt db =
      Leaves-bind-lift (validated_reason reason) _ db tt λ given _. Leaves-transaction _ db tt (
        Leaves-bind _ _ db (Leaves-any _) λ checked first _.
          Leaves-bind-user user_id _ first tt λ row _.
            Leaves-fail_if (bytes_eq user_id actor_id) _ _ _ first (λ _. tt)
              λ _.
                Leaves-fail_if _ _ _ _ first (λ _. tt)
                  λ _. Leaves-bind _ _ first (Leaves-any _) λ spared second _.
                    Leaves-bind-row user_id _ second tt λ again _.
                      Leaves-fail_if (P.verify_password new_password again.password_hash) _ _ _
                        second (λ _. tt)
                        λ _.
                          Leaves-bind-lift (P.hash_password new_password salt) _ second tt
                            λ encoded _. Leaves-bind _ _ second (Leaves-any _) λ changed third _.
                              conclude-Revokes user_id (user_from_row row).username _ _ now _ third)

  -- A session that is not found open lets nobody in.
  kept_out :
      (user_id : Text) (db last : Database) (token : Text) (now : DateTime) (allow : Bool)
      (user : UserRecord)
      → IsRevoked user_id db.sessions
      → resolve_session P token now allow db ≡ (last, ok user)
      → user.user_id ≢ user_id
  unfolding user_from_row
  kept_out user_id db last token now allow user revoked resolved own =
      let admitted = resolve_session-IsAdmitted P token now allow db last user resolved in
      let owner =
        sym (find_user-id _ _ admitted.row admitted.owned)
        ∙ (ap (λ u. u.user_id) (sym admitted.same_user) ∙ own) in
      let shut = revoked (P.token_hash token) admitted.session admitted.issued owner in
      cc (rw admitted.not_revoked at shut)

  -- When `change_password` has returned, no token lets its user in: `resolve_session`, at any time,
  -- returns other users at most.
  pub change_password-resolve_session :
      (user_id current_password new_password : Text) (now : DateTime) (salt : Bytes)
      (db after last : Database) (token : Text) (later : DateTime) (allow : Bool)
      (user : UserRecord)
      → change_password P user_id current_password new_password now salt db ≡ (after, ok tt)
      → resolve_session P token later allow after ≡ (last, ok user)
      → user.user_id ≢ user_id
  change_password-resolve_session user_id current_password new_password now salt db after last token
        later allow user changed resolved =
      kept_out user_id after last token later allow user
        (Leaves-value _ tt after
          (change_password-Revokes user_id current_password new_password now salt db) changed)
        resolved

  -- When `set_user_active` has suspended an account, no token lets its user in.
  pub set_user_active-resolve_session :
      (actor_id user_id current_password reason : Text) (now : DateTime) (db after last : Database)
      (suspended : UserRecord) (token : Text) (later : DateTime) (allow : Bool) (user : UserRecord)
      → set_user_active P actor_id user_id false current_password reason now db
        ≡ (after, ok suspended)
      → resolve_session P token later allow after ≡ (last, ok user)
      → user.user_id ≢ user_id
  set_user_active-resolve_session actor_id user_id current_password reason now db after last
        suspended token later allow user returned resolved =
      kept_out user_id after last token later allow user
        (Leaves-value _ suspended after
          (suspend-Revokes actor_id user_id current_password reason now db) returned)
        resolved

  -- When `reset_password` has returned, no token lets its user in.
  pub reset_password-resolve_session :
      (actor_id user_id new_password current_password reason : Text) (now : DateTime) (salt : Bytes)
      (db after last : Database) (target : UserRecord) (token : Text) (later : DateTime)
      (allow : Bool) (user : UserRecord)
      → reset_password P actor_id user_id new_password current_password reason now salt db
        ≡ (after, ok target)
      → resolve_session P token later allow after ≡ (last, ok user)
      → user.user_id ≢ user_id
  reset_password-resolve_session actor_id user_id new_password current_password reason now salt db
        after last target token later allow user returned resolved =
      kept_out user_id after last token later allow user
        (Leaves-value _ target after
          (reset_password-Revokes actor_id user_id new_password current_password reason now salt db)
          returned)
        resolved
