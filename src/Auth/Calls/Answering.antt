-- ===== src/Auth/Calls/Answering.antt =====
-- A login challenge that was issued can be answered.
use sih.Common.{
  is_some-none, err-ok, ok-same, some-none, ℕ, ◌+◌, ◌*◌, ◌<◌, ◌≡◌, ◌∙◌, ap, refl, inl, inr, true,
  false, ◌||◌, none, some, List, [], ◌∷◌, ◌++◌, length, ltb, ok, arith, lt→ltb, Bool-cases,
}
use sih.Common.Bytes.{bytes_eq, bytes_eq_refl}
use sih.Common.Text.{Text, is_empty}
use sih.Auth.Domain.{Challenge, LoginChallenge}
use sih.Auth.Texts.{without_spaces}
use sih.Auth.Tables.{Database, find_challenge, delete_challenge, drop_expired}
use sih.Auth.Actions.{◌>>=◌, transaction}
use sih.Auth.Actions.Rules.{
  Leaves, Leaves-bind-lift, Leaves-bind-get, Leaves-bind-put, Leaves-fail_if, Leaves-transaction,
  Leaves-value,
}
use sih.Auth.Checks.{Platform, aware, minute, last_time, normalized_time, later}
use sih.Auth.Challenges.{
  is_ascii, compare_answer, is_answered, take_challenge, issue_login_challenge,
  consume_login_challenge,
}

find_challenge-append :
    (hash : Text) (cs : List Challenge) (c : Challenge)
    → find_challenge hash cs ≡ none
    → bytes_eq c.challenge_hash hash ≡ true
    → find_challenge hash (cs ++ c ∷ []) ≡ some c
unfolding find_challenge
find_challenge-append hash [] c missing here = rw here refl
find_challenge-append hash (d ∷ cs) c missing here =
    elim (Bool-cases (bytes_eq d.challenge_hash hash)) [
      | inl same ↦ absurd (some-none (rw same at missing))
      | inr other ↦ rw other (find_challenge-append hash cs c (rw other at missing) here)
    ]

later-ok : (time duration sum : ℕ) → later time duration ≡ ok sum → time + duration ≡ sum
unfolding later
later-ok time duration sum h = elim (Bool-cases (ltb last_time (time + duration))) [
  | inl beyond ↦ absurd (err-ok (rw beyond at h))
  | inr within ↦ ok-same (rw within at h)
]

at_time :
    (time current expires : ℕ)
    → normalized_time (aware time) ≡ ok current
    → later current (2 * minute) ≡ ok expires
    → expires ≡ time + 2 * minute
unfolding normalized_time
at_time time current expires same sum =
    let now = ok-same same in let total = later-ok current (2 * minute) expires sum in omega arith

module _ (P : Platform) where
  -- The row of a challenge that was issued.
  abbrev row_of : Text → Text → ℕ → Challenge
  row_of token answer expires = record {
    challenge_hash = P.token_hash token;
    answer = answer;
    expires_at = expires;
  }

  issue-Leaves :
      (time : ℕ) (token answer : Text) (db : Database)
      → Leaves
          (λ challenge after.
            find_challenge (P.token_hash token) after.challenges
            ≡ some (row_of token answer (time + 2 * minute)))
          (λ after. Unit {0})
          (issue_login_challenge P (aware time) token answer db)
  unfolding issue_login_challenge normalized_time
  issue-Leaves time token answer db =
      Leaves-bind-lift (normalized_time (aware time)) _ db tt λ current same.
        Leaves-bind-lift (later current (2 * minute)) _ db tt λ expires sum.
          Leaves-transaction _ db tt (
            Leaves-bind-get _ db (
              Leaves-bind-put _ _ db (
                Leaves-bind-get _ _ (
                  Leaves-fail_if _ _ _ _ _ (λ _. tt)
                    λ room.
                      Leaves-fail_if _ _ _ _ _ (λ _. tt)
                        λ fresh. Leaves-bind-put _ _ _ (record {
                          outcome =
                              find_challenge-append (P.token_hash token)
                                (drop_expired current db.challenges) (row_of token answer expires)
                                (is_some-none _ fresh) (bytes_eq_refl (P.token_hash token))
                              ∙ ap (λ t. some (row_of token answer t))
                                  (at_time time current expires same sum);
                        })))))

  is_answered-right :
      (c : Challenge) (time : ℕ) (db : Database)
      → time < c.expires_at
      → is_ascii c.answer ≡ true
      → P.upper (without_spaces c.answer) ≡ c.answer
      → is_answered P c c.answer (aware time) db ≡ (db, ok true)
  unfolding compare_answer ◌>>=◌
  is_answered-right c time db open_still ascii plain =
      rw
        (
          is_answered,
          lt→ltb time c.expires_at open_still,
          compare_answer,
          plain,
          ascii,
          bytes_eq_refl c.answer,
        )
        refl

  -- A challenge that `issue_login_challenge` returned is passed by its answer, an ASCII text that
  -- neither the removal of spaces nor upper case changes, for two minutes: the call returns.
  pub issue_login_challenge-consume_login_challenge :
      (time now : ℕ) (token answer : Text) (db after : Database) (challenge : LoginChallenge)
      → issue_login_challenge P (aware time) token answer db ≡ (after, ok challenge)
      → is_empty token || ltb 256 (length token) ≡ false
      → is_ascii answer ≡ true
      → P.upper (without_spaces answer) ≡ answer
      → now < time + 2 * minute
      → (consume_login_challenge P token answer (aware now) after).1 ≡ ok tt
  unfolding consume_login_challenge ◌>>=◌ transaction take_challenge
  issue_login_challenge-consume_login_challenge time now token answer db after challenge issued fine
        ascii plain soon =
      let found = Leaves-value _ challenge after (issue-Leaves time token answer db) issued in
      let answered =
        is_answered-right (row_of token answer (time + 2 * minute)) now
          (record after { challenges = delete_challenge (P.token_hash token) after.challenges })
          soon ascii plain in
      rw (fine, found, answered) refl
