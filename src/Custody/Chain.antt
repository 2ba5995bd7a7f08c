-- ===== src/Custody/Chain.antt =====
-- What `verify` of custody/ledger.py decides.
use sih.Common.{
  ℕ, suc, ◌+◌, ◌<◌, ◌≡◌, ◌↔◌, ◌⊎◌, inl, inr, refl, ap, ◌∙◌, true, false, none, List, [], ◌∷◌,
  length, ◌==◌, arith, Bool-cases, take,
}
use sih.Custody.{Platform, CustodyEvent, event_digest, verify_from, verify, CustodyVerification}

-- The equality test on digests is the equality of digests.
pub record DecidesDigests (P : Platform) : Type 0 where
  pub to_eq : (a b : P.Digest) → P.digest_eq a b ≡ true → a ≡ b
  pub of_eq : (a b : P.Digest) → a ≡ b → P.digest_eq a b ≡ true

module _ (P : Platform) where
  open P use {Digest, genesis_hash, digest_eq}

  -- The event is the right one behind `count` events that end in `previous`.
  pub record IsLinked (count : ℕ) (previous : Digest) (e : CustodyEvent P) : Type 0 where
    pub sequence : e.payload.sequence ≡ count + 1
    pub previous_hash : e.payload.previous_hash ≡ previous
    pub event_hash : event_digest P e.payload ≡ e.event_hash

  abbrev pub IsChain : ℕ → Digest → List (CustodyEvent P) → Type 0
  IsChain count previous [] = Unit
  IsChain count previous (e ∷ es) = IsLinked count previous e × IsChain (count + 1) e.event_hash es

  abbrev pub verified : ℕ → CustodyVerification
  verified n = record {
    valid = true;
    checked_events = n;
    failure_sequence = none;
    message = "Custody chain verified";
  }

  -- How far a ledger is well linked, and how its verification reports it.
  pub record BreaksAt (count : ℕ) (previous : Digest) (es : List (CustodyEvent P))
      (v : CustodyVerification) : Type 0 where
    pub good : ℕ
    pub short : good < length es
    pub checked : v.checked_events ≡ count + good
    pub prefix : IsChain count previous (take good es)
    pub broken : ¬ IsChain count previous (take (suc good) es)
    pub invalid : v.valid ≡ false

  module _ (d : DecidesDigests P) where
    -- One round of the loop.
    verify_step :
        (count : ℕ) (previous : Digest) (e : CustodyEvent P) (es : List (CustodyEvent P))
        → ((verify_from P count previous (e ∷ es) ≡ verify_from P (count + 1) e.event_hash es)
            × IsLinked count previous e)
          ⊎ (((verify_from P count previous (e ∷ es)).valid ≡ false)
              × ((verify_from P count previous (e ∷ es)).checked_events ≡ count)
              × ¬ IsLinked count previous e)
    unfolding verify_from
    verify_step count previous e es = elim (Bool-cases (e.payload.sequence == count + 1)) [
      | inr s ↦ inr (rw s, rw s, λ l. ground (arith, l.sequence))
      | inl s ↦ elim (Bool-cases (digest_eq e.payload.previous_hash previous)) [
        | inr p ↦ inr (rw (s, p), rw (s, p), λ l. cc (p, d.of_eq _ _ l.previous_hash))
        | inl p ↦ elim (Bool-cases (digest_eq (event_digest P e.payload) e.event_hash)) [
          | inr h ↦ inr (rw (s, p, h), rw (s, p, h), λ l. cc (h, d.of_eq _ _ l.event_hash))
          | inl h ↦ inl (
            rw (s, p, h),
            record {
              sequence = ground arith;
              previous_hash = d.to_eq _ _ p;
              event_hash = d.to_eq _ _ h;
            },
          )
        ]
      ]
    ]

    verify_from_lem :
        (count : ℕ) (previous : Digest) (es : List (CustodyEvent P))
        → ((verify_from P count previous es ≡ verified (count + length es))
            × IsChain count previous es)
          ⊎ BreaksAt count previous es (verify_from P count previous es)
    verify_from_lem count previous [] = inl (unfold verify_from in ground arith, tt)
    verify_from_lem count previous (e ∷ es) = elim (verify_step count previous e es) [
      | inr (invalid, checked, unlinked) ↦ inr (record {
        good = 0;
        short = omega arith;
        checked = checked ∙ omega arith;
        prefix = tt;
        broken = λ c. unlinked c.0;
        invalid = invalid;
      })
      | inl (same, linked) ↦ elim (verify_from_lem (count + 1) e.event_hash es) [
        | inl (passed, chain) ↦ inl (same ∙ (passed ∙ ap (verified) (omega arith)), (linked, chain))
        | inr b ↦ inr (record {
          good = suc b.good;
          short = omega (arith, b.short);
          checked = ap (λ v. v.checked_events) same ∙ (b.checked ∙ omega arith);
          prefix = (linked, b.prefix);
          broken = λ c. b.broken c.1;
          invalid = ap (λ v. v.valid) same ∙ b.invalid;
        })
      ]
    ]

    -- `verify` accepts a ledger, and then reports its length, exactly if every event has the next
    -- sequence number, the hash of the event before it and its own hash. Otherwise it reports how
    -- many events at the front are so linked, and the event behind them is not.
    pub verify_lem :
        (es : List (CustodyEvent P))
        → ((verify P es ≡ verified (length es)) × IsChain 0 genesis_hash es)
          ⊎ BreaksAt 0 genesis_hash es (verify P es)
    unfolding verify
    verify_lem es = elim (verify_from_lem 0 genesis_hash es) [
      | inl (passed, chain) ↦ inl (passed ∙ ap (verified) (omega arith), chain)
      | inr broken ↦ inr broken
    ]

    IsChain-accepted :
        (count : ℕ) (previous : Digest) (es : List (CustodyEvent P))
        → IsChain count previous es
        → (verify_from P count previous es).valid ≡ true
    IsChain-accepted count previous [] h = unfold verify_from in refl
    IsChain-accepted count previous (e ∷ es) h = elim (verify_step count previous e es) [
      | inl (same, _) ↦ ap (λ v. v.valid) same ∙ IsChain-accepted (count + 1) e.event_hash es h.1
      | inr (_, _, unlinked) ↦ absurd (unlinked h.0)
    ]

    pub verify_iff :
        (es : List (CustodyEvent P)) → ((verify P es).valid ≡ true) ↔ IsChain 0 genesis_hash es
    unfolding verify
    verify_iff es = (
      λ h. elim (verify_from_lem 0 genesis_hash es) [
        | inl (_, chain) ↦ chain
        | inr b ↦ cc (h, b.invalid)
      ],
      IsChain-accepted 0 genesis_hash es,
    )
