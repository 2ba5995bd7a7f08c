-- ===== src/Auth/Calls/Throttling.antt =====
-- How many failed checks of a password `auth_failures` holds.
use sih.Common.{
  ℕ, ◌≤◌, ◌<◌, ◌≡◌, ◌≢◌, refl, inl, inr, Bool, true, false, List, [], ◌∷◌, ◌++◌, length,
  length-append, leb, if◌then◌else◌, arith, Bool-cases,
}
use sih.Common.Bytes.{bytes_eq, bytes_eq→eq}
use sih.Common.Text.{Text}
use sih.Auth.Domain.{Failure}
use sih.Auth.Tables.{Database, drop_failures, failures_of, clear_key}
use sih.Auth.Checks.{Platform, account_failure_limit, global_failure_limit}
use sih.Auth.Framing.{IsFramed}
use sih.Auth.Calls.{Call, run, run-Keeps, empty_database}

-- No account has more than five failures, and all accounts have at most fifty. The key of a failure
-- that a success forgave is empty.
pub record IsThrottled (db : Database) : Type 0 where
  pub per_account :
      (key : Text) → key ≢ [] → length (failures_of key db.failures) ≤ account_failure_limit
  pub overall : length db.failures ≤ global_failure_limit

length-drop_failures :
    (cutoff : ℕ) (fs : List Failure) → length (drop_failures cutoff fs) ≤ length fs
unfolding drop_failures
length-drop_failures cutoff [] = omega arith
length-drop_failures cutoff (f ∷ fs) = elim (Bool-cases (leb f.occurred_at cutoff)) [
  | inl old ↦ rw old (omega (arith, length-drop_failures cutoff fs))
  | inr recent ↦ rw recent (omega (arith, length-drop_failures cutoff fs))
]

failures_of-drop_failures :
    (key : Text) (cutoff : ℕ) (fs : List Failure)
    → length (failures_of key (drop_failures cutoff fs)) ≤ length (failures_of key fs)
unfolding drop_failures failures_of
failures_of-drop_failures key cutoff [] = omega arith
failures_of-drop_failures key cutoff (f ∷ fs) =
    let rest = failures_of-drop_failures key cutoff fs in
    elim (Bool-cases (leb f.occurred_at cutoff)) [
      | inl old ↦ elim (Bool-cases (bytes_eq f.account_key key)) [
        | inl same ↦ rw (old, same) (omega arith)
        | inr other ↦ rw (old, other) (omega arith)
      ]
      | inr recent ↦ elim (Bool-cases (bytes_eq f.account_key key)) [
        | inl same ↦ rw (recent, same) (omega arith)
        | inr other ↦ rw (recent, other) (omega arith)
      ]
    ]

length-clear_key : (key : Text) (fs : List Failure) → length (clear_key key fs) ≡ length fs
unfolding clear_key
length-clear_key key [] = refl
length-clear_key key (f ∷ fs) = rw (length-clear_key key fs) refl

is_empty-key : (key : Text) → key ≢ [] → bytes_eq [] key ≡ false
is_empty-key [] real = absurd (real refl)
is_empty-key (c ∷ key) real = refl

one_more :
    (b : Bool) (f : Failure) (fs : List Failure) (n : ℕ)
    → n ≤ length fs
    → n ≤ length (if b then f ∷ fs else fs)
one_more true f fs n h = omega arith
one_more false f fs n h = h

-- A cleared failure belongs to no account.
failures_of-clear_key :
    (key forgiven : Text) (fs : List Failure)
    → key ≢ []
    → length (failures_of key (clear_key forgiven fs)) ≤ length (failures_of key fs)
unfolding clear_key failures_of
failures_of-clear_key key forgiven [] real = omega arith
failures_of-clear_key key forgiven (f ∷ fs) real =
    let rest = failures_of-clear_key key forgiven fs real in
    elim (Bool-cases (bytes_eq f.account_key forgiven)) [
      | inl same ↦
          rw (same, is_empty-key key real) (one_more (bytes_eq f.account_key key) f _ _ rest)
      | inr other ↦ elim (Bool-cases (bytes_eq f.account_key key)) [
        | inl own ↦ rw (other, own) (omega arith)
        | inr foreign ↦ rw (other, foreign) rest
      ]
    ]

failures_of-append :
    (key : Text) (fs gs : List Failure)
    → failures_of key (fs ++ gs) ≡ failures_of key fs ++ failures_of key gs
unfolding failures_of
failures_of-append key [] gs = refl
failures_of-append key (f ∷ fs) gs = elim (Bool-cases (bytes_eq f.account_key key)) [
  | inl same ↦ rw (same, failures_of-append key fs gs) refl
  | inr other ↦ rw (other, failures_of-append key fs gs) refl
]

-- A failure is only added where there is room for it.
failures_of-one :
    (key account : Text) (time : ℕ) (fs : List Failure)
    → (length (failures_of key fs) ≤ account_failure_limit)
    → length (failures_of account fs) < account_failure_limit
    → length (failures_of key (fs ++ record { account_key = account; occurred_at = time } ∷ []))
      ≤ account_failure_limit
unfolding failures_of
failures_of-one key account time fs bounded room = elim (Bool-cases (bytes_eq account key)) [
  | inl same ↦
      let near = rw (bytes_eq→eq account key same) at room in
      rw (failures_of-append key fs _, same, length-append (failures_of key fs) _) (omega arith)
  | inr other ↦
      rw (failures_of-append key fs _, other, length-append (failures_of key fs) _) (omega arith)
]

pub IsThrottled-IsFramed : (P : Platform) → IsFramed P IsThrottled
IsThrottled-IsFramed P = record {
  on_sessions = λ db ss h. record { per_account = h.per_account; overall = h.overall };
  on_challenges = λ db cs h. record { per_account = h.per_account; overall = h.overall };
  on_event = λ db actor_id subject action time details h. record {
    per_account = h.per_account;
    overall = h.overall;
  };
  on_drop = λ db cutoff h. record {
    per_account = λ key real.
        let kept = h.per_account key real in
        omega (arith, failures_of-drop_failures key cutoff db.failures);
    overall = let kept = h.overall in omega (arith, length-drop_failures cutoff db.failures);
  };
  on_clear = λ db username h. record {
    per_account = λ key real.
        let kept = h.per_account key real in
        omega (arith, failures_of-clear_key key (P.account_key username) db.failures real);
    overall =
        let kept = h.overall in
        omega (arith, length-clear_key (P.account_key username) db.failures);
  };
  on_failure = λ db username time few total h. record {
    per_account = λ key real.
        failures_of-one key (P.account_key username) time db.failures (h.per_account key real) few;
    overall = omega (arith, length-append db.failures (_ ∷ []));
  };
  on_insert = λ db u h. record { per_account = h.per_account; overall = h.overall };
  on_change = λ db user_id f safe h. record { per_account = h.per_account; overall = h.overall };
}

-- In every database that calls of the store lead to from an empty one, whether they return or raise:
-- no account has more than five failures of a password check that were not forgiven, and there are
-- at most fifty failures.
pub IsThrottled-run : (P : Platform) (calls : List Call) → IsThrottled (run P calls empty_database)
unfolding failures_of
IsThrottled-run P calls =
    run-Keeps (IsThrottled-IsFramed P) calls empty_database
      (record { per_account = λ key real. omega arith; overall = omega arith })
