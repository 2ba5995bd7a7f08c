-- ===== src/Auth/Framing/Sessions.antt =====
-- Every method of `AuthStore` on sessions and login challenges keeps a framed property.
use sih.Common.{
  is_some, inl, inr, Bool, true, false, not, ◌&&◌, ◌||◌, Option, none, some, length, ltb, leb,
  Bool-cases, if◌then◌else◌,
}
use sih.Common.Text.{Text, is_empty}
use sih.Auth.Domain.{User, Session, Challenge}
use sih.Auth.Tables.{Database, find_username, find_session, find_challenge, is_open, drop_expired}
use sih.Auth.Texts.{without_spaces}
use sih.Auth.Actions.{pure}
use sih.Auth.Actions.Rules.{
  Leaves-bind, Leaves-bind-lift, Leaves-bind-get, Leaves-bind-put, Leaves-fail_if,
  Leaves-transaction,
}
use sih.Auth.Checks.{Platform, DateTime, naive, aware, normalized_time, later, earlier}
use sih.Auth.Lookups.{Leaves-bind-user}
use sih.Auth.Framing.{
  IsFramed, Keeps, append_event-Keeps, revoke_user_sessions-Keeps, check_password-Keeps,
}
use sih.Auth.Sessions.{
  is_malformed, insert_session, open_session, authenticate, admit, resolve_session, revoke_row,
  revoke_session, revoke_all_sessions,
}
use sih.Auth.Challenges.{
  max_outstanding_challenges, issue_login_challenge, is_answered, compare_answer, take_challenge,
  consume_login_challenge, is_ascii, challenge_failed,
}

module _ {P : Platform} {I : Database → Type 0} (framed : IsFramed P I) where
  insert_session-Keeps : (s : Session) → Keeps P framed (insert_session s)
  unfolding insert_session
  insert_session-Keeps s db h = Leaves-bind-get _ db (
      Leaves-fail_if (is_some (find_session s.token_hash db.sessions)) _ _ _ db (λ _. h)
        λ _. record { outcome = framed.on_sessions db _ h })

  open_session-Keeps :
      (row : Option User) (token : Text) (now : DateTime) (time : _)
      → Keeps P framed (open_session P row token now time)
  unfolding open_session
  open_session-Keeps none token now time db h = record { outcome = h }
  open_session-Keeps (some row) token now time db h =
      Leaves-bind-lift (later time P.session_lifetime) _ db h λ expires _.
        Leaves-bind _ _ db (insert_session-Keeps _ db h) λ inserted after kept.
          Leaves-bind _ _ after (append_event-Keeps P framed _ _ _ now _ after kept)
            λ logged last at_last. record { outcome = at_last }

  pub authenticate-Keeps :
      (username password : Text) (now : DateTime) (token : Text)
      → Keeps P framed (authenticate P username password now token)
  unfolding authenticate
  authenticate-Keeps username password now token db h =
      Leaves-bind-lift (normalized_time now) _ db h λ time _. Leaves-transaction _ db h (
        Leaves-bind-get _ db (
          Leaves-bind _ _ db
            (check_password-Keeps P framed (find_username _ db.users) _ password now true "login" db
              h)
            λ checked after kept.
              open_session-Keeps (find_username _ db.users) token now time after kept))

  admit-Keeps :
      (row : Option User) (token : Text) (time : _) (allow : Bool)
      → Keeps P framed (admit P row token time allow)
  unfolding admit
  admit-Keeps none token time allow db h = record { outcome = h }
  admit-Keeps (some row) token time allow db h =
      Leaves-fail_if (row.must_change_password && not allow) _ _ _ db (λ _. h)
        λ _.
          Leaves-bind-get _ db
            (Leaves-bind-put _ _ db (record { outcome = framed.on_sessions db _ h }))

  pub resolve_session-Keeps :
      (token : Text) (now : DateTime) (allow : Bool)
      → Keeps P framed (resolve_session P token now allow)
  unfolding resolve_session
  resolve_session-Keeps token now allow db h =
      Leaves-fail_if (is_malformed token) _ _ _ db (λ _. h)
        λ _. Leaves-bind-lift (normalized_time now) _ db h λ time _. Leaves-transaction _ db h (
          Leaves-bind-lift (earlier time P.idle_timeout) _ db h
            λ cutoff _. Leaves-bind-get _ db (admit-Keeps _ token time allow db h))

  revoke_row-Keeps :
      (s : Option Session) (token : Text) (now : DateTime) (time : _)
      → Keeps P framed (revoke_row P s token now time)
  unfolding revoke_row
  revoke_row-Keeps none token now time db h = record { outcome = h }
  revoke_row-Keeps (some s) token now time db h = elim (Bool-cases (not (is_open s))) [
    | inl revoked ↦ rw (revoke_row, revoked) (record { outcome = h })
    | inr unrevoked ↦
        rw (revoke_row, unrevoked)
          (Leaves-bind-get _ db (
            Leaves-bind-put _ _ db
              (append_event-Keeps P framed _ _ _ now _ _ (framed.on_sessions db _ h))))
  ]

  pub revoke_session-Keeps :
      (token : Text) (now : DateTime) → Keeps P framed (revoke_session P token now)
  unfolding revoke_session
  revoke_session-Keeps token now db h =
      Leaves-fail_if (is_malformed token) _ _ _ db (λ _. h)
        λ _. Leaves-bind-lift (normalized_time now) _ db h λ time _.
          Leaves-transaction _ db h (Leaves-bind-get _ db (revoke_row-Keeps _ token now time db h))

  pub revoke_all_sessions-Keeps :
      (user_id : Text) (now : DateTime) → Keeps P framed (revoke_all_sessions P user_id now)
  unfolding revoke_all_sessions
  revoke_all_sessions-Keeps user_id now db h = Leaves-transaction _ db h (
      Leaves-bind-user user_id _ db h λ row _.
        Leaves-bind _ _ db (revoke_user_sessions-Keeps P framed user_id now db h)
          λ revoked after kept. append_event-Keeps P framed _ _ _ now _ after kept)

  pub issue_login_challenge-Keeps :
      (now : DateTime) (token answer : Text)
      → Keeps P framed (issue_login_challenge P now token answer)
  unfolding issue_login_challenge
  issue_login_challenge-Keeps now token answer db h =
      Leaves-bind-lift (normalized_time now) _ db h λ time _.
        Leaves-bind-lift (later time _) _ db h λ expires _. Leaves-transaction _ db h (
          Leaves-bind-get _ db (
            Leaves-bind-put _ _ db (
              Leaves-bind-get _ _ (
                let kept = framed.on_challenges db (drop_expired time db.challenges) h in
                Leaves-fail_if
                  (leb max_outstanding_challenges (length (drop_expired time db.challenges))) _ _ _
                  _ (λ _. kept)
                  λ _.
                    Leaves-fail_if
                      (is_some
                        (find_challenge (P.token_hash token) (drop_expired time db.challenges)))
                      _ _ _ _ (λ _. kept)
                      λ _.
                        Leaves-bind-put _ _ _ (record { outcome = framed.on_challenges db _ h })))))

  compare_answer-Keeps : (expected given : Text) → Keeps P framed (compare_answer P expected given)
  unfolding compare_answer
  compare_answer-Keeps expected given db h =
      Leaves-fail_if (not (is_ascii expected && is_ascii given)) _ _ _ db (λ _. h)
        λ _. record { outcome = h }

  conclude-Keeps : (valid : Bool) → Keeps P framed (if valid then pure tt else challenge_failed)
  conclude-Keeps true db h = record { outcome = h }
  conclude-Keeps false db h = record { outcome = h }

  is_answered-Keeps :
      (c : Challenge) (answer : Text) (now : DateTime) → Keeps P framed (is_answered P c answer now)
  unfolding compare_answer
  is_answered-Keeps c answer naive db h = record { outcome = h }
  is_answered-Keeps c answer (aware time) db h = elim (Bool-cases (ltb time c.expires_at)) [
    | inr late ↦ rw (is_answered, late) (record { outcome = h })
    | inl open_still ↦
        rw (is_answered, open_still)
          (compare_answer-Keeps c.answer (P.upper (without_spaces answer)) db h)
  ]

  take_challenge-Keeps :
      (c : Option Challenge) (hash answer : Text) (now : DateTime)
      → Keeps P framed (take_challenge P c hash answer now)
  unfolding take_challenge
  take_challenge-Keeps none hash answer now db h = record { outcome = h }
  take_challenge-Keeps (some c) hash answer now db h =
      Leaves-bind-get _ db
        (Leaves-bind-put _ _ db (is_answered-Keeps c answer now _ (framed.on_challenges db _ h)))

  pub consume_login_challenge-Keeps :
      (challenge_id answer : Text) (now : DateTime)
      → Keeps P framed (consume_login_challenge P challenge_id answer now)
  unfolding consume_login_challenge
  consume_login_challenge-Keeps challenge_id answer now db h =
      Leaves-fail_if (is_empty challenge_id || ltb _ (length challenge_id)) _ _ _ db (λ _. h)
        λ _.
          Leaves-bind _ _ db
            (Leaves-transaction _ db h
              (Leaves-bind-get _ db (take_challenge-Keeps _ _ answer now db h)))
            λ valid after kept. conclude-Keeps valid after kept
