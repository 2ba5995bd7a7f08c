-- ===== src/Hikvision/Adapter/Find.antt =====
-- What the `bytes.find` of `_find_signature` (adapters/hikvision/adapter.py) finds.
use sih.Common.{
  ℕ, zero, suc, ◌<◌, ◌≡◌, ◌≢◌, inl, inr, refl, ap, subst, true, false, none, some, [], ◌∷◌, length,
  take, slice, ◌==◌, ==→eq, arith, Bool-cases, Option-cases, and_true, length-slice,
}
use sih.Common.Bytes.{Bytes, find, starts_with}

starts_with-take : (p xs : Bytes) → starts_with p xs ≡ true → take (length p) xs ≡ p
starts_with-take [] xs h = refl
starts_with-take (x ∷ p) [] h = cc
starts_with-take (x ∷ p) (y ∷ xs) h =
    let (same, rest) = and_true (x == y) (starts_with p xs) h in
    rw (==→eq x y same, starts_with-take p xs rest)

starts_with_complete : (p xs : Bytes) → take (length p) xs ≡ p → starts_with p xs ≡ true
starts_with_complete [] xs h = refl
starts_with_complete (x ∷ p) [] h = cc
starts_with_complete (x ∷ p) (y ∷ xs) h =
    let same : y ≡ x = cc in
    let rest : take (length p) xs ≡ p = cc in ground (arith, starts_with_complete p xs rest)

starts_with-absent : (p xs : Bytes) → starts_with p xs ≡ false → take (length p) xs ≢ p
starts_with-absent p xs h e = cc (starts_with_complete p xs e, h)

-- No place before `k` holds the pattern.
abbrev pub IsAbsent : Bytes → Bytes → ℕ → Type 0
IsAbsent p xs k = (j : ℕ) → j < k → slice xs j (length p) ≢ p

abbrev pub IsFirst : Bytes → Bytes → ℕ → Type 0
IsFirst p xs k = (slice xs k (length p) ≡ p) × IsAbsent p xs k

IsFirst-here : (p xs : Bytes) → starts_with p xs ≡ true → IsFirst p xs 0
IsFirst-here p xs h = (starts_with-take p xs h, λ j lt. absurd (omega arith))

IsFirst-there :
    (p : Bytes) (x : ℕ) (xs : Bytes) (k : ℕ)
    → starts_with p (x ∷ xs) ≡ false
    → IsFirst p xs k
    → IsFirst p (x ∷ xs) (suc k)
IsFirst-there p x xs k h first = (first.0, go)
  where
    go : IsAbsent p (x ∷ xs) (suc k)
    go zero lt = starts_with-absent p (x ∷ xs) h
    go (suc j) lt = first.1 j (omega arith)

suc-injective-some : {a b : ℕ} → some a ≡ some b → a ≡ b
suc-injective-some h = cc

pub find-some : (p xs : Bytes) (i : ℕ) → find p xs ≡ some i → IsFirst p xs i
unfolding find
find-some p [] i h = elim (Bool-cases (starts_with p [])) [
  | inl here ↦
      let found : some 0 ≡ some i = rw here at h in
      subst (IsFirst p []) (suc-injective-some found) (IsFirst-here p [] here)
  | inr other ↦ let missing : none ≡ some i = rw other at h in cc
]
find-some p (x ∷ xs) i h = elim (Bool-cases (starts_with p (x ∷ xs))) [
  | inl here ↦
      let found : some 0 ≡ some i = rw here at h in
      subst (IsFirst p (x ∷ xs)) (suc-injective-some found) (IsFirst-here p (x ∷ xs) here)
  | inr other ↦ elim (Option-cases (find p xs)) [
    | inl nothing ↦ let missing : none ≡ some i = rw (other, nothing) at h in cc
    | inr (k, found) ↦
        let at : some (suc k) ≡ some i = rw (other, found) at h in
        subst (IsFirst p (x ∷ xs)) (suc-injective-some at)
          (IsFirst-there p x xs k other (find-some p xs k found))
  ]
]

some-none : {A : Type 0} {a : A} → some a ≢ none
some-none h = cc

pub find-none :
    (p xs : Bytes) → find p xs ≡ none → 0 < length p → (j : ℕ) → slice xs j (length p) ≢ p
unfolding find
find-none p [] h given j = λ e. omega (arith, length-slice {A = ℕ} [] j (length p), ap length e)
find-none p (x ∷ xs) h given j = elim (Bool-cases (starts_with p (x ∷ xs))) [
  | inl here ↦ absurd (some-none {A = ℕ} (rw here at h))
  | inr other ↦ elim (Option-cases (find p xs)) [
    | inl nothing ↦ go other (find-none p xs nothing given) j
    | inr (k, found) ↦ absurd (some-none {A = ℕ} (rw (other, found) at h))
  ]
]
  where
    go :
        starts_with p (x ∷ xs) ≡ false
        → ((j : ℕ) → slice xs j (length p) ≢ p)
        → (j : ℕ) → slice (x ∷ xs) j (length p) ≢ p
    go other rest zero = starts_with-absent p (x ∷ xs) other
    go other rest (suc j) = rest j
