-- ===== src/Registry/Choice.antt =====
-- The order of the probe results and the choice that `best_match` makes of them.
use sih.Common.{
  ℕ, ◌+◌, ◌≤◌, ◌<◌, ◌≡◌, ◌⊎◌, sym, subst, refl, inl, inr, true, false, List, [], ◌∷◌, length, All,
  ltb, leb, ◌==◌, ErrorKind, Bool-cases, Result-cases, or_false, or_true, and_true, arith, tests,
}
use sih.Common.Double.{double, double_sub}
use sih.Common.Text.{codes, text_lt}
use sih.Common.Ensures.{Ensures, Ensures-if, returns, raises}
use sih.Evidence.Readable.{ReadableEvidence}
use sih.Adapter.{ProbeResult}
use sih.Registry.{
  AdapterRegistration, probe_one, probe_each, comes_before, insert_result, sort_results, probe_all,
  candidates, is_within_margin, choose_best, best_match,
}

abbrev IsAtMost : ℕ → List ProbeResult → Type 0
IsAtMost confidence rs = All (λ s. s.confidence ≤ confidence) rs

-- The confidences fall.
abbrev pub IsSorted : List ProbeResult → Type 0
IsSorted [] = Unit {0}
IsSorted (r ∷ rs) = IsAtMost r.confidence rs × IsSorted rs

IsAtMost-weaken : (a b : ℕ) (rs : List ProbeResult) → a ≤ b → IsAtMost a rs → IsAtMost b rs
IsAtMost-weaken a b [] le h = tt
IsAtMost-weaken a b (r ∷ rs) le h = let first = h.0 in (omega arith, IsAtMost-weaken a b rs le h.1)

IsAtMost-insert_result :
    (c : ℕ) (r : ProbeResult) (rs : List ProbeResult)
    → r.confidence ≤ c
    → IsAtMost c rs
    → IsAtMost c (insert_result r rs)
unfolding insert_result
IsAtMost-insert_result c r [] le h = (le, tt)
IsAtMost-insert_result c r (s ∷ rs) le h = elim (Bool-cases (comes_before s r)) [
  | inl before ↦ rw (insert_result, before) (h.0, IsAtMost-insert_result c r rs le h.1)
  | inr behind ↦ rw (insert_result, behind) (le, h)
]

comes_before-le : (s r : ProbeResult) → comes_before s r ≡ true → r.confidence ≤ s.confidence
comes_before-le s r h = elim (or_true (ltb r.confidence s.confidence) _ h) [
  | inl less ↦ ground arith
  | inr tied ↦
      let (same, _) =
        and_true (s.confidence == r.confidence) (text_lt (codes s.adapter_id) (codes r.adapter_id))
          tied in
      ground arith
]

comes_before-ge : (s r : ProbeResult) → comes_before s r ≡ false → s.confidence ≤ r.confidence
comes_before-ge s r h =
    let (not_less, _) = or_false (ltb r.confidence s.confidence) _ h in ground arith

insert_result-IsSorted :
    (r : ProbeResult) (rs : List ProbeResult) → IsSorted rs → IsSorted (insert_result r rs)
unfolding insert_result
insert_result-IsSorted r [] h = (tt, tt)
insert_result-IsSorted r (s ∷ rs) h = elim (Bool-cases (comes_before s r)) [
  | inl before ↦
      rw (insert_result, before)
        (
          IsAtMost-insert_result s.confidence r rs (comes_before-le s r before) h.0,
          insert_result-IsSorted r rs h.1,
        )
  | inr behind ↦
      let le = comes_before-ge s r behind in
      rw (insert_result, behind) ((le, IsAtMost-weaken s.confidence r.confidence rs le h.0), h)
]

sort_results-IsSorted : (rs : List ProbeResult) → IsSorted (sort_results rs)
unfolding sort_results
sort_results-IsSorted [] = tt
sort_results-IsSorted (r ∷ rs) =
    insert_result-IsSorted r (sort_results rs) (sort_results-IsSorted rs)

-- Every registered adapter has one result or one failure.
pub probe_each-length :
    (rs : List AdapterRegistration) (source : ReadableEvidence)
    → length (probe_each rs source).results + length (probe_each rs source).failures ≡ length rs
unfolding probe_each
probe_each-length [] source = omega arith
probe_each-length (r ∷ rs) source = elim (Result-cases (probe_one r source)) [
  | inl (result, found) ↦ rw found (omega (arith, probe_each-length rs source))
  | inr (e, failed) ↦ rw failed (omega (arith, probe_each-length rs source))
]

none-nil : {A : Type 0} {x : A} {xs : List A} → ¬ (x ∷ xs ≡ [])
none-nil h = cc

-- Without candidates no confidence is enough.
candidates-nil :
    (minimum : ℕ) (rs : List ProbeResult)
    → candidates minimum rs ≡ []
    → All (λ s. s.confidence < minimum) rs
unfolding candidates
candidates-nil minimum [] h = tt
candidates-nil minimum (r ∷ rs) h = elim (Bool-cases (leb minimum r.confidence)) [
  | inl enough ↦ absurd (none-nil (rw (candidates, enough) at h))
  | inr small ↦ (ground arith, candidates-nil minimum rs (rw (candidates, small) at h))
]

heads : {x y : ProbeResult} {xs ys : List ProbeResult} → x ∷ xs ≡ y ∷ ys → x ≡ y
heads h = cc

-- The first candidate of sorted results has the greatest confidence.
candidates-greatest :
    (minimum : ℕ) (rs : List ProbeResult) (best : ProbeResult) (rest : List ProbeResult)
    → IsSorted rs
    → candidates minimum rs ≡ best ∷ rest
    → (minimum ≤ best.confidence) × IsAtMost best.confidence rs
unfolding candidates
candidates-greatest minimum [] best rest sorted h = absurd (none-nil (sym h))
candidates-greatest minimum (r ∷ rs) best rest sorted h =
    elim (Bool-cases (leb minimum r.confidence)) [
      | inl enough ↦
          subst (λ b. (minimum ≤ b.confidence) × IsAtMost b.confidence (r ∷ rs))
            (heads (rw (candidates, enough) at h)) (ground arith, (omega arith, sorted.0))
      | inr small ↦
          let (fits, others) =
            candidates-greatest minimum rs best rest sorted.1 (rw (candidates, small) at h) in
          (fits, (ground arith, others))
    ]

-- The difference of the floats of the best and the next candidate is more than the margin's.
abbrev IsClear : ℕ → List ProbeResult → Type 0
IsClear margin [] = Unit {0}
IsClear margin (best ∷ []) = Unit {0}
IsClear margin (best ∷ second ∷ rest) =
    double margin < double_sub (double best.confidence) (double second.confidence)

-- The difference of the floats of the first two candidates is at most the margin's.
abbrev IsAmbiguous : ℕ → List ProbeResult → Type 0
IsAmbiguous margin (best ∷ second ∷ rest) =
    double_sub (double best.confidence) (double second.confidence) ≤ double margin
IsAmbiguous margin (best ∷ []) = ⊥
IsAmbiguous margin [] = ⊥

pub record IsBest (minimum margin : ℕ) (rs : List ProbeResult) (best : ProbeResult) : Type 0 where
  pub enough : minimum ≤ best.confidence
  pub greatest : All (λ s. s.confidence ≤ best.confidence) rs
  pub first : (rest : List ProbeResult) × (candidates minimum rs ≡ best ∷ rest)
  pub clear : IsClear margin (candidates minimum rs)

abbrev pub NoChoice : ℕ → ℕ → List ProbeResult → ErrorKind → Type 0
NoChoice minimum margin rs kind =
    ((kind ≡ ErrorKind.unsupported_evidence_error) × All (λ s. s.confidence < minimum) rs)
    ⊎ ((kind ≡ ErrorKind.ambiguous_adapter_error) × IsAmbiguous margin (candidates minimum rs))

choose_best-Ensures :
    (minimum margin : ℕ) (rs cs : List ProbeResult)
    → IsSorted rs
    → candidates minimum rs ≡ cs
    → Ensures (NoChoice minimum margin rs) (IsBest minimum margin rs) (choose_best margin cs)
choose_best-Ensures minimum margin rs [] sorted same =
    raises _ _ (inl (refl, candidates-nil minimum rs same))
choose_best-Ensures minimum margin rs (best ∷ []) sorted same =
    let (enough, greatest) = candidates-greatest minimum rs best [] sorted same in
    returns best (record {
      enough = enough;
      greatest = greatest;
      first = ([], same);
      clear = subst (IsClear margin) (sym same) tt;
    })
choose_best-Ensures minimum margin rs (best ∷ second ∷ rest) sorted same =
    let (enough, greatest) = candidates-greatest minimum rs best (second ∷ rest) sorted same in
    Ensures-if (is_within_margin best.confidence second.confidence margin) _ _
      (λ near. raises _ _ (inr (refl, subst (IsAmbiguous margin) (sym same) (omega (tests, near)))))
      λ apart. returns best (record {
        enough = enough;
        greatest = greatest;
        first = (second ∷ rest, same);
        clear = subst (IsClear margin) (sym same) (omega (tests, apart));
      })

-- With a threshold and a margin up to one, `best_match` of what `probe_all` reports returns the first
-- result of enough confidence, which has the greatest confidence of all, and the floating point
-- difference to the next candidate, if there is one, is more than the margin; it raises
-- UnsupportedEvidenceError only where no result has enough confidence, and AmbiguousAdapterError only
-- where the floating point difference of the first two candidates is at most the margin.
pub probe_all-best_match :
    (minimum margin : ℕ) (registrations : List AdapterRegistration) (source : ReadableEvidence)
    → minimum ≤ 100
    → margin ≤ 100
    → Ensures
        (NoChoice minimum margin (probe_all registrations source).results)
        (IsBest minimum margin (probe_all registrations source).results)
        (best_match minimum margin (probe_all registrations source))
unfolding best_match probe_all
probe_all-best_match minimum margin registrations source low narrow =
    let a : ltb 100 minimum ≡ false = ground arith in
    let b : ltb 100 margin ≡ false = ground arith in
    rw (a, b)
      (choose_best-Ensures minimum margin (probe_all registrations source).results _
        (sort_results-IsSorted (probe_each registrations source).results) refl)
