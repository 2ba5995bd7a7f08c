-- ===== src/Custody/Appending.antt =====
-- What `append` of custody/ledger.py adds, and that every ledger it builds passes `verify`.
use sih.Common.{
  ℕ, ◌+◌, ◌≡◌, inl, inr, refl, true, false, not, String, List, [], ◌∷◌, ◌++◌, length, ok, err,
  Error, ErrorKind, Result, Bool, Bool-cases, Result-cases, ◌⊎◌, arith, All, subst,
}
use sih.Common.Text.{Text, is_blank}
use sih.Custody.{
  Platform, CustodyEvent, Request, last_hash, append, new_event, DateTime, naive, aware, verify,
  normalized_time, or_now, or_empty, is_nil, empty_fields, has_blank_hash,
}
use sih.Custody.Chain.{DecidesDigests, IsLinked, IsChain, verified, verify_lem, verify_iff}

module _ (P : Platform) where
  open P use {Digest, genesis_hash, digest_eq}

  -- The required fields are not blank, nor is any hash or its name.
  pub record IsComplete (r : Request P) : Type 0 where
    pub case_id : is_blank r.case_id ≡ false
    pub actor_id : is_blank r.actor_id ≡ false
    pub actor_role : is_blank r.actor_role ≡ false
    pub action : is_blank r.action ≡ false
    pub hashes :
        All (λ (h : Text × Text). (is_blank h.0 ≡ false) × (is_blank h.1 ≡ false)) r.evidence_hashes

  IsChain-append :
      (count : ℕ) (previous : Digest) (es : List (CustodyEvent P)) (e : CustodyEvent P)
      → IsChain P count previous es
      → IsLinked P (count + length es) (last_hash P previous es) e
      → IsChain P count previous (es ++ e ∷ [])
  unfolding last_hash
  IsChain-append count previous [] e h l =
      (subst (λ n. IsLinked P n previous e) (omega arith) l, tt)
  IsChain-append count previous (x ∷ es) e h l = (
    h.0,
    IsChain-append (count + 1) x.event_hash es e h.1
        (subst (λ n. IsLinked P n (last_hash P x.event_hash es) e) (omega arith) l),
  )

  -- What a successful `append` did: it added one event at the end, with the request's fields, the
  -- next number and the hash of the last event, and that event seals it.
  pub record IsAppended (es : List (CustodyEvent P)) (r : Request P) (es' : List (CustodyEvent P))
      (e : CustodyEvent P) : Type 0 where
    pub events : es' ≡ es ++ e ∷ []
    pub linked : IsLinked P (length es) (last_hash P genesis_hash es) e
    pub case_id : e.payload.case_id ≡ r.case_id
    pub actor_id : e.payload.actor_id ≡ r.actor_id
    pub actor_role : e.payload.actor_role ≡ r.actor_role
    pub action : e.payload.action ≡ r.action
    pub event_id : e.payload.event_id ≡ r.uuid
    pub evidence_hashes : e.payload.evidence_hashes ≡ r.evidence_hashes
    pub occurred_at : or_now P r.occurred_at r.now ≡ aware e.payload.occurred_at
    pub details : P.safe_details (or_empty P r.details) ≡ ok e.payload.details
    pub complete : IsComplete r

  -- Why `append` raises: a ValueError for a blank field or a time without a zone, or what JSON raised on
  -- the details.
  abbrev pub IsRefused : Request P → Error → Type 0
  IsRefused r x =
      ((x.kind ≡ ErrorKind.value_error)
        × ((¬ IsComplete r) ⊎ (or_now P r.occurred_at r.now ≡ naive)))
      ⊎ (P.safe_details (or_empty P r.details) ≡ err x)

  abbrev pub AppendOutcome :
      List (CustodyEvent P) → Request P → List (CustodyEvent P) × Result (CustodyEvent P) → Type 0
  AppendOutcome es r (es', ok e) = IsAppended es r es' e
  AppendOutcome es r (es', err x) = (es' ≡ es) × IsRefused r x

  abbrev required : Request P → List (String × Text)
  required r =
      ("case_id", r.case_id)
      ∷ ("actor_id", r.actor_id)
      ∷ ("actor_role", r.actor_role)
      ∷ ("action", r.action)
      ∷ []

  none_blank :
      (r : Request P)
      → is_nil (empty_fields (required r)) ≡ true
      → (is_blank r.case_id ≡ false)
        × (is_blank r.actor_id ≡ false)
        × (is_blank r.actor_role ≡ false)
        × (is_blank r.action ≡ false)
  unfolding empty_fields
  none_blank r h = (ground arith, ground arith, ground arith, ground arith)

  has_blank_hash_none :
      (hs : List (Text × Text))
      → has_blank_hash hs ≡ false
      → All (λ (h : Text × Text). (is_blank h.0 ≡ false) × (is_blank h.1 ≡ false)) hs
  unfolding has_blank_hash
  has_blank_hash_none [] h = tt
  has_blank_hash_none ((a, x) ∷ hs) h =
      ((ground arith, ground arith), has_blank_hash_none hs (ground arith))

  some_blank : (r : Request P) → is_nil (empty_fields (required r)) ≡ false → ¬ IsComplete r
  unfolding empty_fields
  some_blank r h c = ground (arith, c.case_id, c.actor_id, c.actor_role, c.action)

  has_blank_hash_some :
      (hs : List (Text × Text))
      → has_blank_hash hs ≡ true
      → ¬ All (λ (h : Text × Text). (is_blank h.0 ≡ false) × (is_blank h.1 ≡ false)) hs
  unfolding has_blank_hash
  has_blank_hash_some [] h c = cc
  has_blank_hash_some ((a, x) ∷ hs) h c = has_blank_hash_some hs (ground (arith, c.0.0, c.0.1)) c.1

  not-true : (b : Bool) → not b ≡ true → b ≡ false
  not-true true h = cc
  not-true false h = refl

  not-false : (b : Bool) → not b ≡ false → b ≡ true
  not-false true h = refl
  not-false false h = cc

  zoned : (t : DateTime) → ((u : Text) × (t ≡ aware u)) ⊎ (t ≡ naive)
  zoned naive = inr refl
  zoned (aware u) = inl (u, refl)

  pub append-AppendOutcome :
      (es : List (CustodyEvent P)) (r : Request P) → AppendOutcome es r (append P es r)
  unfolding append new_event normalized_time
  append-AppendOutcome es r = elim (Bool-cases (not (is_nil (empty_fields (required r))))) [
    | inl blank ↦ rw blank (refl, inl (refl, inl (some_blank r (not-true _ blank))))
    | inr given ↦ elim (zoned (or_now P r.occurred_at r.now)) [
      | inr unzoned ↦ rw (given, unzoned) (refl, inl (refl, inr unzoned))
      | inl (time, utc) ↦ elim (Result-cases (P.safe_details (or_empty P r.details))) [
        | inr (x, unsafe) ↦ rw (given, utc, unsafe) (refl, inr unsafe)
        | inl (details, safe) ↦ elim (Bool-cases (has_blank_hash r.evidence_hashes)) [
          | inl blank ↦
              rw (given, utc, safe, blank)
                (refl, inl (refl, inl (λ c. has_blank_hash_some r.evidence_hashes blank c.hashes)))
          | inr full ↦
              let (case_id, actor_id, actor_role, action) = none_blank r (not-false _ given) in
              rw (given, utc, safe, full)
                (record {
                  events = refl;
                  linked = record { sequence = refl; previous_hash = refl; event_hash = refl };
                  case_id = refl;
                  actor_id = refl;
                  actor_role = refl;
                  action = refl;
                  event_id = refl;
                  evidence_hashes = refl;
                  occurred_at = utc;
                  details = safe;
                  complete = record {
                    case_id = case_id;
                    actor_id = actor_id;
                    actor_role = actor_role;
                    action = action;
                    hashes = has_blank_hash_none r.evidence_hashes full;
                  };
                })
        ]
      ]
    ]
  ]

  -- The ledgers that appending to an empty ledger can give.
  pub data Built : List (CustodyEvent P) → Type 0 where
    new : Built []
    appended :
        {es es' : List (CustodyEvent P)} {e : CustodyEvent P}
        → Built es
        → (r : Request P) → append P es r ≡ (es', ok e)
        → Built es'

  Built-IsChain : {es : List (CustodyEvent P)} → Built es → IsChain P 0 genesis_hash es
  Built-IsChain new = tt
  Built-IsChain (appended {es} {es'} {e} b r h) =
      let a = subst (AppendOutcome es r) h (append-AppendOutcome es r) in
      rw a.events (
        IsChain-append 0 genesis_hash es e (Built-IsChain b)
          (subst (λ n. IsLinked P n (last_hash P genesis_hash es) e) (omega arith) a.linked))

  -- Every ledger that was built by `append` alone passes `verify`, with all its events checked.
  pub Built-verify :
      DecidesDigests P
      → (es : List (CustodyEvent P)) → Built es
      → verify P es ≡ verified P (length es)
  Built-verify d es b = elim (verify_lem P d es) [
    | inl (passed, _) ↦ passed
    | inr broken ↦ cc ((verify_iff P d es).1 (Built-IsChain b), broken.invalid)
  ]
