-- ===== src/Custody/Tests.antt =====
-- Ledgers with one event, and the theorems on the ledger at them. The digest stands for SHA-256 by
-- keeping what it covers, and JSON forgets the case of the details.
use sih.Common.{
  ℕ, ◌≡◌, ◌⊎◌, refl, ap, Bool, true, false, none, List, [], ◌∷◌, ok, raise, ErrorKind, listing,
  ℕ_discrete,
}
use sih.Common.Text.{Text, codes, lower, is_blank}
use sih.Custody.{
  Payload, Platform, CustodyEvent, Request, normalized_time, empty_fields, has_blank_hash,
  last_hash, append, new_event, verify,
}
use sih.Custody.Chain.{
  DecidesDigests, IsLinked, IsChain, BreaksAt, verify_lem, verify_iff, verified,
}
use sih.Custody.Appending.{Built, new, appended, Built-verify}
use sih.Custody.Tamper.{
  IsFaithful, SameLedger, HasCollision, HitsGenesis, lookup, last_hash_determines,
}

data Seal : Type 0 where
  genesis : Seal
  seal : Text → ℕ → Text → Text → Text → Text → Text → Text → List (Text × Text) → Seal → Seal

Seal-discrete : Discrete Seal
Seal-discrete = hlevel ℕ_discrete

abbrev seal_of : Payload Text Seal → Seal
seal_of a =
    seal a.event_id a.sequence a.case_id a.actor_id a.actor_role a.action a.occurred_at
      (lower a.details) a.evidence_hashes a.previous_hash

abbrev dec_bool : {A : Type 0} → Dec A → Bool
dec_bool (yes a) = true
dec_bool (no a) = false

seal_eq : Seal → Seal → Bool
seal_eq a b = dec_bool (Seal-discrete a b)

abbrev platform : Platform
platform = record {
  Details = Text;
  Canonical = Seal;
  Digest = Seal;
  safe_details = λ d. ok (lower d);
  no_details = codes "{}";
  canonical_json = seal_of;
  hexdigest = λ canonical. canonical;
  genesis_hash = genesis;
  digest_eq = seal_eq;
}

platform-DecidesDigests : DecidesDigests platform
platform-DecidesDigests = record { to_eq = λ a b h. to a b h; of_eq = λ a b h. of a b h }
  where
    from_dec : (A : Type 0) (d : Dec A) → dec_bool d ≡ true → A
    from_dec A (yes a) h = a
    from_dec A (no n) h = cc

    to_dec : (A : Type 0) (d : Dec A) → A → dec_bool d ≡ true
    to_dec A (yes a) h = refl
    to_dec A (no n) h = absurd (n h)

    to : (a b : Seal) → seal_eq a b ≡ true → a ≡ b
    to a b h = from_dec (a ≡ b) (Seal-discrete a b) (unfold seal_eq in h)

    of : (a b : Seal) → a ≡ b → seal_eq a b ≡ true
    of a b h = unfold seal_eq in to_dec (a ≡ b) (Seal-discrete a b) h

platform-IsFaithful : IsFaithful platform
platform-IsFaithful = record {
  same = λ a b h. record {
    event_id = cc;
    sequence = cc;
    case_id = cc;
    actor_id = cc;
    actor_role = cc;
    action = cc;
    occurred_at = cc;
    details = cc;
    evidence_hashes =
        λ key. let hashes : a.evidence_hashes ≡ b.evidence_hashes = cc in ap (lookup key) hashes;
    previous_hash = cc;
  };
  discrete = Seal-discrete;
}

abbrev request : Text → Request platform
request action = record {
  case_id = codes "C-1";
  actor_id = codes "u1";
  actor_role = codes "examiner";
  action = action;
  details = none;
  evidence_hashes = (codes "sha256", codes "ab") ∷ [];
  occurred_at = none;
  now = codes "2026-01-01T00:00:00.000000Z";
  uuid = codes "e";
}

abbrev first : CustodyEvent platform
first = record {
  payload = record {
    event_id = codes "e";
    sequence = 1;
    case_id = codes "C-1";
    actor_id = codes "u1";
    actor_role = codes "examiner";
    action = codes "acquire";
    occurred_at = codes "2026-01-01T00:00:00.000000Z";
    details = codes "{}";
    evidence_hashes = (codes "sha256", codes "ab") ∷ [];
    previous_hash = genesis;
  };
  event_hash =
      seal (codes "e") 1 (codes "C-1") (codes "u1") (codes "examiner") (codes "acquire")
        (codes "2026-01-01T00:00:00.000000Z") (codes "{}") ((codes "sha256", codes "ab") ∷ [])
        genesis;
}

append-first : append platform [] (request (codes "acquire")) ≡ (first ∷ [], ok first)
unfolding append new_event empty_fields has_blank_hash normalized_time is_blank last_hash lower
append-first = refl

append_blank : append platform [] (request (codes "  ")) ≡ (
  [],
  raise ErrorKind.value_error (listing "Custody event fields cannot be empty: " ("action" ∷ [])),
)
unfolding append new_event empty_fields is_blank
append_blank = refl

first-Built : Built platform (first ∷ [])
first-Built = appended new (request (codes "acquire")) append-first

verify_lem_example :
    ((verify platform (first ∷ []) ≡ verified platform 1) × IsChain platform 0 genesis (first ∷ []))
    ⊎ BreaksAt platform 0 genesis (first ∷ []) (verify platform (first ∷ []))
verify_lem_example = verify_lem platform platform-DecidesDigests (first ∷ [])

Built-verify_example : verify platform (first ∷ []) ≡ verified platform 1
Built-verify_example = Built-verify platform platform-DecidesDigests (first ∷ []) first-Built

-- An event whose details JSON does not tell apart from those of another.
abbrev loud : Text → CustodyEvent platform
loud details = record first {
  payload = record first.payload { details = details };
  event_hash =
      seal (codes "e") 1 (codes "C-1") (codes "u1") (codes "examiner") (codes "acquire")
        (codes "2026-01-01T00:00:00.000000Z") (codes "a") ((codes "sha256", codes "ab") ∷ [])
        genesis;
}

abbrev small : List (CustodyEvent platform)
small = loud (codes "a") ∷ []

abbrev capital : List (CustodyEvent platform)
capital = loud (codes "A") ∷ []

small_valid : (verify platform small).valid ≡ true
unfolding lower
small_valid = (verify_iff platform platform-DecidesDigests small).1 (linked, tt)
  where
    linked : IsLinked platform 0 genesis (loud (codes "a"))
    linked = record { sequence = refl; previous_hash = refl; event_hash = refl }

capital_valid : (verify platform capital).valid ≡ true
unfolding lower
capital_valid = (verify_iff platform platform-DecidesDigests capital).1 (linked, tt)
  where
    linked : IsLinked platform 0 genesis (loud (codes "A"))
    linked = record { sequence = refl; previous_hash = refl; event_hash = refl }

last_hash_determines_example :
    SameLedger platform small capital
    ⊎ (HasCollision platform small capital
        ⊎ (HitsGenesis platform small ⊎ HitsGenesis platform capital))
last_hash_determines_example =
    last_hash_determines platform platform-IsFaithful platform-DecidesDigests small capital
      small_valid capital_valid (unfold last_hash in refl)
