-- ===== src/Auth/Calls/Resolving.antt =====
-- Whom `resolve_session` lets in, and how the calls that revoke sessions end that.
use sih.Common.{
  err-ok, none-some, ok-same, some-same, ℕ, ◌+◌, ◌≤◌, ◌<◌, ◌≡◌, ◌⊎◌, subst, refl, inl, inr, Bool,
  true, false, not, ◌&&◌, Option, none, some, List, ltb, ok, arith, Bool-cases, and_true,
  Option-cases, ltb→lt, leb→le, ltb→le,
}
use sih.Common.Text.{Text}
use sih.Auth.Domain.{User, UserRecord, user_from_row, Session}
use sih.Auth.Tables.{Database, find_user, find_session, is_open}
use sih.Auth.Actions.Rules.{
  Leaves, Leaves-bind-lift, Leaves-bind-get, Leaves-bind-put, Leaves-fail_if, Leaves-transaction,
  Leaves-value,
}
use sih.Auth.Checks.{Platform, DateTime, naive, aware, normalized_time, earlier}
use sih.Auth.Sessions.{is_live, join_user, live_user, admit, is_malformed, resolve_session}

-- What lets the holder of a token in.
pub record IsAdmitted (P : Platform) (db : Database) (token : Text) (now : DateTime)
    (allow_password_change : Bool) (user : UserRecord) : Type 0 where
  pub session : Session
  pub row : User
  pub time : ℕ
  pub current : now ≡ aware time
  pub issued : find_session (P.token_hash token) db.sessions ≡ some session
  pub owned : find_user session.user_id db.users ≡ some row
  pub same_user : user ≡ user_from_row row
  pub not_revoked : session.revoked_at ≡ none
  pub not_expired : time < session.expires_at
  pub begun : session.created_at ≤ time
  pub not_idle : time < session.last_seen_at + P.idle_timeout
  pub active : row.active ≡ true
  pub password : (row.must_change_password ≡ false) ⊎ (allow_password_change ≡ true)

revoked_at-none : (s : Session) → is_open s ≡ true → s.revoked_at ≡ none
revoked_at-none s h = elim (Option-cases s.revoked_at) [
  | inl missing ↦ missing
  | inr (t, here) ↦ cc (rw here at h)
]

live_user-some :
    (s : Option Session) (us : List User) (time cutoff : ℕ) (row : User)
    → live_user (join_user s us) time cutoff ≡ some row
    → (found : Session) × ((s ≡ some found)
        × ((find_user found.user_id us ≡ some row) × (is_live found row time cutoff ≡ true)))
live_user-some none us time cutoff row h = cc
live_user-some (some s) us time cutoff row h = elim (Option-cases (find_user s.user_id us)) [
  | inl missing ↦ cc (rw (live_user, join_user, missing) at h)
  | inr (u, here) ↦ elim (Bool-cases (is_live s u time cutoff)) [
    | inl live ↦
        let same = some-same (rw (live_user, join_user, here, live) at h) in
        (
          s,
          (
            refl,
            subst (λ r. (find_user s.user_id us ≡ some r) × (is_live s r time cutoff ≡ true)) same
                (here, live),
          ),
        )
    | inr dead ↦ absurd (none-some (rw (live_user, join_user, here, dead) at h))
  ]
]

earlier-ok :
    (time duration cutoff : ℕ) → earlier time duration ≡ ok cutoff → time ≡ cutoff + duration
unfolding earlier
earlier-ok time duration cutoff h = elim (Bool-cases (ltb time duration)) [
  | inl short ↦ absurd (err-ok (rw short at h))
  | inr enough ↦ let same = ok-same (rw enough at h) in let fits = ltb→le _ _ enough in omega arith
]

-- What the WHERE of the query says.
is_live-parts :
    (s : Session) (u : User) (time cutoff : ℕ)
    → is_live s u time cutoff ≡ true
    → (s.revoked_at ≡ none)
      × ((time < s.expires_at)
          × ((s.created_at ≤ time) × ((cutoff < s.last_seen_at) × (u.active ≡ true))))
unfolding is_live
is_live-parts s u time cutoff h =
    let (a, rest) = and_true _ _ h in
    let (b, later) = and_true _ _ rest in
    let (c, more) = and_true _ _ later in
    let (d, e) = and_true _ _ more in
    (revoked_at-none s a, (ltb→lt _ _ b, (leb→le _ _ c, (ltb→lt _ _ d, e))))

normalized_time-ok : (now : DateTime) (time : ℕ) → normalized_time now ≡ ok time → now ≡ aware time
unfolding normalized_time
normalized_time-ok naive time h = cc
normalized_time-ok (aware t) time h = cc

password_lem : (must allow : Bool) → must && not allow ≡ false → (must ≡ false) ⊎ (allow ≡ true)
password_lem true true h = inr refl
password_lem true false h = cc
password_lem false allow h = inl refl

module _ (P : Platform) where
  admit-IsAdmitted :
      (db : Database) (token : Text) (now : DateTime) (time cutoff : ℕ) (allow : Bool)
      (row : Option User)
      → live_user (join_user (find_session (P.token_hash token) db.sessions) db.users) time cutoff
        ≡ row
      → now ≡ aware time
      → time ≡ cutoff + P.idle_timeout
      → Leaves
          (λ user after. IsAdmitted P db token now allow user)
          (λ after. Unit {0})
          (admit P row token time allow db)
  unfolding admit
  admit-IsAdmitted db token now time cutoff allow none query current idle = record { outcome = tt }
  admit-IsAdmitted db token now time cutoff allow (some row) query current idle =
      let (s, (issued, (owned, live))) = live_user-some _ db.users time cutoff row query in
      let (not_revoked, (not_expired, (begun, (seen, active)))) =
        is_live-parts s row time cutoff live in
      Leaves-fail_if _ _ _ _ db (λ _. tt)
        λ allowed. Leaves-bind-get _ db (
          Leaves-bind-put _ _ db (record {
            outcome = record {
              session = s;
              row = row;
              time = time;
              current = current;
              issued = issued;
              owned = owned;
              same_user = refl;
              not_revoked = not_revoked;
              not_expired = not_expired;
              begun = begun;
              not_idle = omega arith;
              active = active;
              password = password_lem row.must_change_password allow allowed;
            };
          }))

  resolve_session-Leaves :
      (token : Text) (now : DateTime) (allow : Bool) (db : Database)
      → Leaves
          (λ user after. IsAdmitted P db token now allow user)
          (λ after. Unit {0})
          (resolve_session P token now allow db)
  unfolding resolve_session
  resolve_session-Leaves token now allow db =
      Leaves-fail_if (is_malformed token) _ _ _ db (λ _. tt)
        λ _. Leaves-bind-lift (normalized_time now) _ db tt λ time current.
          Leaves-transaction _ db tt (
            Leaves-bind-lift (earlier time P.idle_timeout) _ db tt λ cutoff idle.
              Leaves-bind-get _ db (
                admit-IsAdmitted db token now time cutoff allow _ refl
                  (normalized_time-ok now time current)
                  (earlier-ok time P.idle_timeout cutoff idle)))

  -- `resolve_session` returns a user only for a session that the token opened and that has begun and
  -- is not revoked, expired or idle for too long, whose account is active, with a permanent password unless the call
  -- allows a temporary one.
  pub resolve_session-IsAdmitted :
      (token : Text) (now : DateTime) (allow : Bool) (db after : Database) (user : UserRecord)
      → resolve_session P token now allow db ≡ (after, ok user)
      → IsAdmitted P db token now allow user
  resolve_session-IsAdmitted token now allow db after user returned =
      Leaves-value _ user after (resolve_session-Leaves token now allow db) returned
