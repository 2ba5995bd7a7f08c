-- ===== src/Custody/Tamper.antt =====
-- Tamper evidence: the last hash of a verified ledger determines its events, up to what their
-- canonical JSON does not tell apart. SHA-256 is not assumed to be without collisions: two ledgers
-- that differ and end alike give the two events that collide.
use sih.Common.{
  ℕ, ◌+◌, ◌≡◌, ◌≢◌, ◌⊎◌, refl, sym, ◌∙◌, subst, inl, inr, true, Option, none, some, List, [], ◌∷◌,
  length, if◌then◌else◌, arith,
}
use sih.Common.Bytes.{bytes_eq}
use sih.Common.Text.{Text}
use sih.Custody.{Payload, Platform, CustodyEvent, event_digest, last_hash, verify}
use sih.Custody.Chain.{DecidesDigests, IsLinked, IsChain, verify_iff}

-- `evidence_hashes.get(key)`; of equal keys the last one counts
abbrev pub lookup : Text → List (Text × Text) → Option Text
lookup key [] = none
lookup key ((algorithm, digest) ∷ rest) = elim (lookup key rest) [
  | some later ↦ some later
  | none ↦ if bytes_eq algorithm key then some digest else none
]

module _ (P : Platform) where
  open P use {Digest, Details, canonical_json, genesis_hash}

  -- The payloads have the same fields: `details` as JSON gives them back, and `evidence_hashes` as a
  -- mapping.
  pub record IsSamePayload (a b : Payload Details Digest) : Type 0 where
    pub event_id : a.event_id ≡ b.event_id
    pub sequence : a.sequence ≡ b.sequence
    pub case_id : a.case_id ≡ b.case_id
    pub actor_id : a.actor_id ≡ b.actor_id
    pub actor_role : a.actor_role ≡ b.actor_role
    pub action : a.action ≡ b.action
    pub occurred_at : a.occurred_at ≡ b.occurred_at
    pub details : P.safe_details a.details ≡ P.safe_details b.details
    pub evidence_hashes : (key : Text) → lookup key a.evidence_hashes ≡ lookup key b.evidence_hashes
    pub previous_hash : a.previous_hash ≡ b.previous_hash

  -- JSON text holds what it was made of: payloads of the same canonical text have the same fields.
  -- Canonical texts, which are bytes, can be compared.
  pub record IsFaithful : Type 0 where
    pub same :
        (a b : Payload Details Digest) → canonical_json a ≡ canonical_json b → IsSamePayload a b
    pub discrete : Discrete P.Canonical

  -- Event by event the same.
  abbrev pub SameLedger : List (CustodyEvent P) → List (CustodyEvent P) → Type 0
  SameLedger [] [] = Unit {0}
  SameLedger [] (f ∷ fs) = ⊥
  SameLedger (e ∷ es) [] = ⊥
  SameLedger (e ∷ es) (f ∷ fs) =
      IsSamePayload e.payload f.payload × (e.event_hash ≡ f.event_hash) × SameLedger es fs

  -- Some event of the ledger is so.
  abbrev pub Among : (CustodyEvent P → Type 0) → List (CustodyEvent P) → Type 0
  Among Q [] = ⊥
  Among Q (e ∷ es) = Q e ⊎ Among Q es

  -- Two different canonical texts with one digest.
  abbrev pub Collides : CustodyEvent P → CustodyEvent P → Type 0
  Collides e f =
      (canonical_json e.payload ≢ canonical_json f.payload)
      × (event_digest P e.payload ≡ event_digest P f.payload)

  -- An event of the one ledger and an event of the other collide.
  abbrev pub HasCollision : List (CustodyEvent P) → List (CustodyEvent P) → Type 0
  HasCollision es fs = Among (λ e. Among (Collides e) fs) es

  -- An event has 64 zeros as its digest.
  abbrev pub HitsGenesis : List (CustodyEvent P) → Type 0
  HitsGenesis es = Among (λ e. event_digest P e.payload ≡ genesis_hash) es

  Among-later :
      (f : CustodyEvent P) (es fs : List (CustodyEvent P))
      → HasCollision es fs
      → HasCollision es (f ∷ fs)
  Among-later f [] fs h = h
  Among-later f (e ∷ es) fs (inl here) = inl (inr here)
  Among-later f (e ∷ es) fs (inr there) = inr (Among-later f es fs there)

  Among-at :
      (Q : CustodyEvent P → Type 0) (a : CustodyEvent P) (es : List (CustodyEvent P))
      → Among (λ e. a ≡ e) es
      → Q a
      → Among Q es
  Among-at Q a [] h q = h
  Among-at Q a (e ∷ es) (inl here) q = inl (subst Q here q)
  Among-at Q a (e ∷ es) (inr there) q = inr (Among-at Q a es there q)

  module _ (faithful : IsFaithful) where
    -- Two linked events with one hash.
    event_same :
        (count count' : ℕ) (p q : Digest) (e f : CustodyEvent P)
        → IsLinked P count p e
        → IsLinked P count' q f
        → e.event_hash ≡ f.event_hash
        → (IsSamePayload e.payload f.payload × (p ≡ q)) ⊎ Collides e f
    event_same count count' p q e f le lf h =
        elim (faithful.discrete (canonical_json e.payload) (canonical_json f.payload)) [
          | yes same ↦
              let fields = faithful.same e.payload f.payload same in
              inl (fields, sym le.previous_hash ∙ (fields.previous_hash ∙ lf.previous_hash))
          | no differ ↦ inr (differ, le.event_hash ∙ (h ∙ sym lf.event_hash))
        ]

    -- Backwards from the last event.
    chains_same :
        (count count' : ℕ) (p q : Digest) (es fs : List (CustodyEvent P))
        → length es ≡ length fs
        → IsChain P count p es
        → IsChain P count' q fs
        → last_hash P p es ≡ last_hash P q fs
        → (SameLedger es fs × (p ≡ q)) ⊎ HasCollision es fs
    unfolding last_hash
    chains_same count count' p q [] [] n c d h = inl (tt, h)
    chains_same count count' p q [] (f ∷ fs) n c d h = absurd (omega arith)
    chains_same count count' p q (e ∷ es) [] n c d h = absurd (omega arith)
    chains_same count count' p q (e ∷ es) (f ∷ fs) n c d h =
        elim (chains_same (count + 1) (count' + 1) e.event_hash f.event_hash es fs (omega arith) c.1
          d.1 h) [
            | inr later ↦ inr (inr (Among-later f es fs later))
            | inl (rest, hash) ↦ elim (event_same count count' p q e f c.0 d.0 hash) [
              | inl (fields, previous) ↦ inl ((fields, hash, rest), previous)
              | inr collision ↦ inr (inl (inl collision))
            ]
          ]

    -- The last event of a chain has its last hash and tells its length.
    last_event :
        (count : ℕ) (p : Digest) (e : CustodyEvent P) (es : List (CustodyEvent P))
        → IsChain P count p (e ∷ es)
        → (a : CustodyEvent P) × Among (λ x. a ≡ x) (e ∷ es)
          × (event_digest P a.payload ≡ last_hash P p (e ∷ es))
          × (a.payload.sequence ≡ count + length (e ∷ es))
    unfolding last_hash
    last_event count p e [] c = (e, inl refl, c.0.event_hash, c.0.sequence ∙ omega arith)
    last_event count p e (f ∷ es) c =
        let (a, among, digest, n) = last_event (count + 1) e.event_hash f es c.1 in
        (a, inr among, digest, n ∙ omega arith)

    -- Chains with one last hash are equally long.
    last_length :
        (es fs : List (CustodyEvent P))
        → IsChain P 0 genesis_hash es
        → IsChain P 0 genesis_hash fs
        → last_hash P genesis_hash es ≡ last_hash P genesis_hash fs
        → (length es ≡ length fs) ⊎ (HasCollision es fs ⊎ (HitsGenesis es ⊎ HitsGenesis fs))
    last_length [] [] c d h = inl refl
    last_length [] (f ∷ fs) c d h =
        let (b, among, digest, _) = last_event 0 genesis_hash f fs d in
        inr (
          inr (
            inr (
              Among-at (λ x. event_digest P x.payload ≡ genesis_hash) b (f ∷ fs) among
                (digest ∙ (sym h ∙ unfold last_hash in refl)))))
    last_length (e ∷ es) [] c d h =
        let (a, among, digest, _) = last_event 0 genesis_hash e es c in
        inr (
          inr (
            inl (
              Among-at (λ x. event_digest P x.payload ≡ genesis_hash) a (e ∷ es) among
                (digest ∙ (h ∙ unfold last_hash in refl)))))
    last_length (e ∷ es) (f ∷ fs) c d h =
        let (a, in_es, da, na) = last_event 0 genesis_hash e es c in
        let (b, in_fs, db, nb) = last_event 0 genesis_hash f fs d in
        elim (faithful.discrete (canonical_json a.payload) (canonical_json b.payload)) [
          | yes same ↦
              let fields = faithful.same a.payload b.payload same in
              inl (omega (arith, na, nb, fields.sequence))
          | no differ ↦ inr (
              inl (
                Among-at (λ x. Among (Collides x) (f ∷ fs)) a (e ∷ es) in_es
                  (Among-at (Collides a) b (f ∷ fs) in_fs (differ, da ∙ (h ∙ sym db)))))
        ]

    -- Two ledgers that both pass `verify` and end in the same hash have the same events, event by event
    -- in all fields, the details as JSON gives them back and the evidence hashes as a mapping: none can
    -- be changed, dropped, inserted or moved without changing the last hash. Otherwise SHA-256 fails on
    -- events of these ledgers: two with different canonical texts have one digest, or one has 64 zeros.
    -- (Equal canonical texts are taken to come from equal fields.)
    pub last_hash_determines :
        DecidesDigests P
        → (es fs : List (CustodyEvent P)) → (verify P es).valid ≡ true
        → (verify P fs).valid ≡ true
        → last_hash P genesis_hash es ≡ last_hash P genesis_hash fs
        → SameLedger es fs ⊎ (HasCollision es fs ⊎ (HitsGenesis es ⊎ HitsGenesis fs))
    last_hash_determines d es fs ve vf h =
        let c = (verify_iff P d es).0 ve in
        let c' = (verify_iff P d fs).0 vf in
        elim (last_length es fs c c' h) [
          | inr forged ↦ inr forged
          | inl n ↦ elim (chains_same 0 0 genesis_hash genesis_hash es fs n c c' h) [
            | inl (same, _) ↦ inl same
            | inr collision ↦ inr (inl collision)
          ]
        ]
