-- ===== src/Auth/Calls/Chain.antt =====
-- The audit events of `AuthStore` as a chain of hashes, which `verify_auth_events` checks.
use sih.Common.{
  ℕ, ◌+◌, ◌≡◌, ◌↔◌, refl, ap, subst, ◌∙◌, inl, inr, true, false, ◌&&◌, Option, String, List, [],
  ◌∷◌, ◌++◌, length, ◌==◌, arith, Bool-cases, and_true, sym, ==→eq,
}
use sih.Common.Bytes.{bytes_eq, bytes_eq_refl, bytes_eq→eq}
use sih.Common.Text.{Text}
use sih.Auth.Domain.{AuthEvent, AuthAuditVerification, Details}
use sih.Auth.Tables.{Database, last_event}
use sih.Auth.Checks.{Platform, new_event, no_hash, next_sequence, hash_of}
use sih.Auth.Audit.{check_events, verify_auth_events}
use sih.Auth.Framing.{IsFramed}
use sih.Auth.Calls.{Call, run, run-Keeps}

abbrev pub verified : ℕ → AuthAuditVerification
verified count = record { valid = true; checked_events = count }

-- The hash that the next event links to.
abbrev tip : Text → List AuthEvent → Text
tip previous [] = previous
tip previous (e ∷ es) = tip e.event_hash es

tip_lem :
    (previous : Text) (e : AuthEvent) (es : List AuthEvent)
    → hash_of (last_event (e ∷ es)) ≡ tip previous (e ∷ es)
unfolding last_event
tip_lem previous e [] = refl
tip_lem previous e (f ∷ es) = tip_lem e.event_hash f es

-- An event follows `checked` others, whose last hash is `previous`.
pub record IsLink (P : Platform) (checked : ℕ) (previous : Text) (e : AuthEvent) : Type 0 where
  pub sequence : e.payload.sequence ≡ checked + 1
  pub previous_hash : e.payload.previous_hash ≡ previous
  pub event_hash : e.event_hash ≡ P.event_digest e.payload

abbrev pub IsChain : Platform → ℕ → Text → List AuthEvent → Type 0
IsChain P checked previous [] = Unit {0}
IsChain P checked previous (e ∷ es) =
    IsLink P checked previous e × IsChain P (checked + 1) e.event_hash es

false≠ : ¬ (false ≡ true)
false≠ h = cc

module _ (P : Platform) where
  IsChain-check :
      (checked : ℕ) (previous : Text) (es : List AuthEvent)
      → IsChain P checked previous es
      → check_events P checked previous es ≡ verified (checked + length es)
  unfolding check_events
  IsChain-check checked previous [] h = ap verified (omega arith)
  IsChain-check checked previous (e ∷ es) h =
      let numbered : (e.payload.sequence == checked + 1) ≡ true = ground (arith, h.0.sequence) in
      let joined : bytes_eq e.payload.previous_hash previous ≡ true =
        subst (λ p. bytes_eq p previous ≡ true) (sym h.0.previous_hash) (bytes_eq_refl previous) in
      let digested : bytes_eq e.event_hash (P.event_digest e.payload) ≡ true =
        subst (λ d. bytes_eq e.event_hash d ≡ true) h.0.event_hash (bytes_eq_refl e.event_hash) in
      rw (check_events, numbered, joined, digested)
        (IsChain-check (checked + 1) e.event_hash es h.1 ∙ ap verified (omega arith))

  check-IsChain :
      (checked : ℕ) (previous : Text) (es : List AuthEvent)
      → (check_events P checked previous es).valid ≡ true
      → IsChain P checked previous es
  unfolding check_events
  check-IsChain checked previous [] h = tt
  check-IsChain checked previous (e ∷ es) h =
      elim (Bool-cases (
        (e.payload.sequence == checked + 1)
        && (bytes_eq e.payload.previous_hash previous
            && bytes_eq e.event_hash (P.event_digest e.payload)))) [
              | inl linked ↦
                  let (numbered, hashed) = and_true _ _ linked in
                  let (joined, digested) = and_true _ _ hashed in
                  (
                    record {
                      sequence = ==→eq _ _ numbered;
                      previous_hash = bytes_eq→eq _ _ joined;
                      event_hash = bytes_eq→eq _ _ digested;
                    },
                    check-IsChain (checked + 1) e.event_hash es (rw (check_events, linked) at h),
                  )
              | inr broken ↦ absurd (false≠ (rw (check_events, broken) at h))
            ]

  IsChain-append :
      (checked : ℕ) (previous : Text) (es : List AuthEvent) (e : AuthEvent)
      → IsChain P checked previous es
      → IsLink P (checked + length es) (tip previous es) e
      → IsChain P checked previous (es ++ e ∷ [])
  IsChain-append checked previous [] e h link = (
    record {
      sequence = omega (arith, link.sequence);
      previous_hash = link.previous_hash;
      event_hash = link.event_hash;
    },
    tt,
  )
  IsChain-append checked previous (f ∷ es) e h link = (
    h.0,
    IsChain-append (checked + 1) f.event_hash es e h.1 (record {
      sequence = omega (arith, link.sequence);
      previous_hash = link.previous_hash;
      event_hash = link.event_hash;
    }),
  )

  -- The number that the next event gets.
  next_sequence-IsChain :
      (checked : ℕ) (previous : Text) (e : AuthEvent) (es : List AuthEvent)
      → IsChain P checked previous (e ∷ es)
      → next_sequence (last_event (e ∷ es)) ≡ checked + length (e ∷ es) + 1
  unfolding last_event
  next_sequence-IsChain checked previous e [] h = rw (h.0.sequence) (omega arith)
  next_sequence-IsChain checked previous e (f ∷ es) h =
      omega (arith, next_sequence-IsChain (checked + 1) e.event_hash f es h.1)

  -- What `_append_event` inserts is the next link.
  IsChain-new_event :
      (es : List AuthEvent) (actor_id : Option Text) (subject : Text) (action : String) (time : ℕ)
      (details : Details)
      → IsChain P 0 no_hash es
      → IsChain P 0 no_hash (es ++ new_event P es actor_id subject action time details ∷ [])
  unfolding last_event
  IsChain-new_event [] actor_id subject action time details h =
      (record { sequence = refl; previous_hash = refl; event_hash = refl }, tt)
  IsChain-new_event (e ∷ es) actor_id subject action time details h =
      IsChain-append 0 no_hash (e ∷ es) _ h (record {
        sequence = next_sequence-IsChain 0 no_hash e es h;
        previous_hash = tip_lem no_hash e es;
        event_hash = refl;
      })

  IsChain-IsFramed : IsFramed P (λ db. IsChain P 0 no_hash db.events)
  IsChain-IsFramed = record {
    on_sessions = λ db ss h. h;
    on_challenges = λ db cs h. h;
    on_event = λ db actor_id subject action time details h.
        IsChain-new_event db.events actor_id subject action time details h;
    on_drop = λ db cutoff h. h;
    on_clear = λ db username h. h;
    on_failure = λ db username time few total h. h;
    on_insert = λ db u h. h;
    on_change = λ db user_id f safe h. h;
  }

  -- In every database that calls of the store lead to from one whose audit events verify, whether the
  -- calls return or raise: `verify_auth_events` accepts the events, and counts all of them.
  pub verify_auth_events-run :
      (db : Database) (calls : List Call)
      → (verify_auth_events P db).valid ≡ true
      → verify_auth_events P (run P calls db) ≡ verified (length (run P calls db).events)
  unfolding verify_auth_events
  verify_auth_events-run db calls accepted =
      IsChain-check 0 no_hash _
        (run-Keeps IsChain-IsFramed calls db (check-IsChain 0 no_hash db.events accepted))
      ∙ ap verified (omega arith)

  -- `verify_auth_events` accepts a database exactly if every event has the next sequence number, the
  -- hash of the event before it and its own digest.
  pub verify_auth_events_iff :
      (db : Database) → ((verify_auth_events P db).valid ≡ true) ↔ IsChain P 0 no_hash db.events
  unfolding verify_auth_events
  verify_auth_events_iff db = (
    check-IsChain 0 no_hash db.events,
    λ chain. ap (λ v. v.valid) (IsChain-check 0 no_hash db.events chain),
  )
