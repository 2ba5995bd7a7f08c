-- ===== src/Common/Lists.antt =====
-- Lists measured and indexed by native numbers, under the library's names.
use Prim.Native.Nat.{ℕ, zero, suc, ◌+◌, ◌-◌, ◌≤◌, ◌<◌, min}
use mathlib.Core.Path.{◌≡◌, refl, ap, ◌∙◌, sym}
use mathlib.Core.List.{List, [], ◌∷◌, ◌++◌}
use mathlib.Core.Option.{Option, none, some}
use native.Mathlib.Omega.{arith}

module _ {ℓ} {A : Type ℓ} where
  abbrev pub length : List A → ℕ
  length [] = 0
  length (x ∷ xs) = suc (length xs)

  abbrev pub get_elem? : List A → ℕ → Option A
  get_elem? [] i = none
  get_elem? (x ∷ xs) zero = some x
  get_elem? (x ∷ xs) (suc i) = get_elem? xs i

  abbrev pub take : ℕ → List A → List A
  take zero xs = []
  take (suc n) [] = []
  take (suc n) (x ∷ xs) = x ∷ take n xs

  abbrev pub drop : ℕ → List A → List A
  drop zero xs = xs
  drop (suc n) [] = []
  drop (suc n) (x ∷ xs) = drop n xs

  -- Every element satisfies `P`.
  abbrev pub All {κ} : (A → Type κ) → List A → Type κ
  All P [] = Unit
  All P (x ∷ xs) = P x × All P xs

module _ {ℓ} {A : Type ℓ} where
  pub length-append : (xs ys : List A) → length (xs ++ ys) ≡ length xs + length ys
  length-append [] ys = omega arith
  length-append (x ∷ xs) ys = omega (arith, length-append xs ys)

  pub length-take : (n : ℕ) (xs : List A) → length (take n xs) ≡ min n (length xs)
  length-take zero xs = omega arith
  length-take (suc n) [] = omega arith
  length-take (suc n) (x ∷ xs) = omega (arith, length-take n xs)

  pub length-drop : (n : ℕ) (xs : List A) → length (drop n xs) ≡ length xs - n
  length-drop zero xs = omega arith
  length-drop (suc n) [] = omega arith
  length-drop (suc n) (x ∷ xs) = omega (arith, length-drop n xs)

  pub take-append-drop : (n : ℕ) (xs : List A) → take n xs ++ drop n xs ≡ xs
  take-append-drop zero xs = refl
  take-append-drop (suc n) [] = refl
  take-append-drop (suc n) (x ∷ xs) = rw (take-append-drop n xs)

  -- The elements of `data[o : o + n]`, fewer where the list ends before.
  abbrev pub slice : List A → ℕ → ℕ → List A
  slice xs o n = take n (drop o xs)

  pub length-slice : (xs : List A) (o n : ℕ) → length (slice xs o n) ≡ min n (length xs - o)
  length-slice xs o n = omega (arith, length-take n (drop o xs), length-drop o xs)

  pub length-slice_in : (xs : List A) (o n : ℕ) → o + n ≤ length xs → length (slice xs o n) ≡ n
  length-slice_in xs o n h = omega (arith, length-slice xs o n)

  pub drop-nil : (n : ℕ) → drop {A = A} n [] ≡ []
  drop-nil zero = refl
  drop-nil (suc n) = refl

  pub take-nil : (n : ℕ) → take {A = A} n [] ≡ []
  take-nil zero = refl
  take-nil (suc n) = refl

  pub drop-drop : (m n : ℕ) (xs : List A) → drop m (drop n xs) ≡ drop (n + m) xs
  drop-drop m zero xs = ap (λ k. drop k xs) (omega arith)
  drop-drop m (suc n) [] = ground (arith, drop-nil m, drop-nil (suc n + m))
  drop-drop m (suc n) (x ∷ xs) =
      let e : suc n + m ≡ suc (n + m) = omega arith in rw e (drop-drop m n xs)

  pub All-append {κ} : (P : A → Type κ) (xs ys : List A) → All P xs → All P ys → All P (xs ++ ys)
  All-append P [] ys h k = k
  All-append P (x ∷ xs) ys h k = (h.0, All-append P xs ys h.1 k)

  pub All-take {κ} : (P : A → Type κ) (n : ℕ) (xs : List A) → All P xs → All P (take n xs)
  All-take P zero xs h = tt
  All-take P (suc n) [] h = tt
  All-take P (suc n) (x ∷ xs) h = (h.0, All-take P n xs h.1)

  pub All-drop {κ} : (P : A → Type κ) (n : ℕ) (xs : List A) → All P xs → All P (drop n xs)
  All-drop P zero xs h = h
  All-drop P (suc n) [] h = tt
  All-drop P (suc n) (x ∷ xs) h = All-drop P n xs h.1

  pub All-slice {κ} : (P : A → Type κ) (xs : List A) (o n : ℕ) → All P xs → All P (slice xs o n)
  All-slice P xs o n h = All-take P n (drop o xs) (All-drop P o xs h)

  pub All-map {κ ι} :
      {P : A → Type κ} {Q : A → Type ι} (f : (a : A) → P a → Q a) (xs : List A)
      → All P xs
      → All Q xs
  All-map f [] h = tt
  All-map f (x ∷ xs) h = (f x h.0, All-map f xs h.1)

  pub get_elem?-All {κ} :
      (P : A → Type κ) (xs : List A) (i : ℕ) {a : A} → All P xs → get_elem? xs i ≡ some a → P a
  get_elem?-All P [] i h e = cc
  get_elem?-All P (x ∷ xs) zero {a} h e = let e' : x ≡ a = cc in rw (← e') h.0
  get_elem?-All P (x ∷ xs) (suc i) h e = get_elem?-All P xs i h.1 e

  pub take_all : (xs : List A) (n : ℕ) → length xs ≤ n → take n xs ≡ xs
  take_all [] zero h = refl
  take_all [] (suc n) h = refl
  take_all (x ∷ xs) zero h = absurd (omega arith)
  take_all (x ∷ xs) (suc n) h = ap (◌∷◌ x) (take_all xs n (omega arith))

  -- What a slice adds to the prefix before it.
  pub take_add : (m n : ℕ) (xs : List A) → take (m + n) xs ≡ take m xs ++ slice xs m n
  take_add zero n xs = ap (λ k. take k xs) (omega arith)
  take_add (suc m) n [] =
      let e : suc m + n ≡ suc (m + n) = omega arith in rw e (ground (arith, take-nil n))
  take_add (suc m) n (x ∷ xs) =
      let e : suc m + n ≡ suc (m + n) = omega arith in rw e (ap (◌∷◌ x) (take_add m n xs))

  take-take : (m n : ℕ) (xs : List A) → n ≤ m → take n (take m xs) ≡ take n xs
  take-take m zero xs h = refl
  take-take zero (suc n) xs h = absurd (omega arith)
  take-take (suc m) (suc n) [] h = refl
  take-take (suc m) (suc n) (x ∷ xs) h = ap (◌∷◌ x) (take-take m n xs (omega arith))

  drop-take : (m o : ℕ) (xs : List A) → drop o (take m xs) ≡ take (m - o) (drop o xs)
  drop-take m zero xs = ap (λ k. take k xs) (omega arith)
  drop-take zero (suc o) xs = let e : 0 - suc o ≡ 0 = omega arith in rw e
  drop-take (suc m) (suc o) [] = ground (arith, take-nil (suc m - suc o))
  drop-take (suc m) (suc o) (x ∷ xs) =
      let e : suc m - suc o ≡ m - o = omega arith in rw e (drop-take m o xs)

  -- A slice of a slice is a slice of the whole.
  pub slice-slice :
      (xs : List A) (p m o n : ℕ) → o + n ≤ m → slice (slice xs p m) o n ≡ slice xs (p + o) n
  slice-slice xs p m o n h =
      rw (drop-take m o (drop p xs), drop-drop o p xs)
        (take-take (m - o) n (drop (p + o) xs) (omega arith))

  get_elem?-take : (n i : ℕ) (xs : List A) → i < n → get_elem? (take n xs) i ≡ get_elem? xs i
  get_elem?-take zero i xs h = elim h [ ]
  get_elem?-take (suc n) i [] h = refl
  get_elem?-take (suc n) zero (x ∷ xs) h = refl
  get_elem?-take (suc n) (suc i) (x ∷ xs) h = get_elem?-take n i xs (omega arith)

  get_elem?-drop : (o i : ℕ) (xs : List A) → get_elem? (drop o xs) i ≡ get_elem? xs (o + i)
  get_elem?-drop zero i xs = ap (get_elem? xs) (omega arith)
  get_elem?-drop (suc o) i [] = refl
  get_elem?-drop (suc o) i (x ∷ xs) =
      let e : suc o + i ≡ suc (o + i) = omega arith in rw e (get_elem?-drop o i xs)

  pub get_elem?-slice :
      (xs : List A) (o n i : ℕ) → i < n → get_elem? (slice xs o n) i ≡ get_elem? xs (o + i)
  get_elem?-slice xs o n i h = get_elem?-take n i (drop o xs) h ∙ get_elem?-drop o i xs

  pub take-slice : (xs : List A) (p m n : ℕ) → n ≤ m → take n (slice xs p m) ≡ slice xs p n
  take-slice xs p m n h = take-take m n (drop p xs) h

  pub length-le_of_none : (xs : List A) (i : ℕ) → get_elem? xs i ≡ none → length xs ≤ i
  length-le_of_none [] i h = omega arith
  length-le_of_none (x ∷ xs) zero h = cc
  length-le_of_none (x ∷ xs) (suc i) h = omega (arith, length-le_of_none xs i h)

  -- Two slices side by side.
  pub slice-append :
      (xs : List A) (o m n : ℕ) → slice xs o m ++ slice xs (o + m) n ≡ slice xs o (m + n)
  slice-append xs o m n =
      ap (λ ys. slice xs o m ++ take n ys) (sym (drop-drop m o xs)) ∙ sym (take_add m n (drop o xs))

  pub drop-slice : (xs : List A) (o m k : ℕ) → drop k (slice xs o m) ≡ slice xs (o + k) (m - k)
  drop-slice xs o m k = drop-take m k (drop o xs) ∙ ap (take (m - k)) (drop-drop k o xs)
