-- ===== src/Catalog/Writing.antt =====
-- The bytes that `ingest` receives are the bytes of the file.
use sih.Common.{
  ℕ, zero, suc, ◌+◌, ◌≤◌, ◌<◌, ◌≡◌, ◌∙◌, ap, sym, subst, refl, inl, inr, Bool, true, false, List,
  [], ◌∷◌, ◌++◌, length, take, drop, length-drop, length-append, take-append-drop, ltb, ◌==◌, Error,
  raise, raise_if, ◌>>◌, Message, text, ErrorKind, Result, ok, err, Bool-cases, Result-cases,
  >>=-eq-ok, ok-same, err-ok, arith, ltb→le, ==→ne, ◌≢◌,
}
use sih.Common.Bytes.{Bytes}
use sih.Catalog.{Platform}
use sih.Catalog.Ingest.{
  catalog_error, Piece, Progress, write_all, receive, at_start, IngestRequest, receive_all,
  is_mismatch,
}

-- The bytes that a stream carries.
abbrev pub joined : List Piece → Bytes
joined [] = []
joined (Piece.piece chunk ∷ pieces) = chunk ++ joined pieces
joined (p ∷ pieces) = joined pieces

pub append_assoc : (xs ys zs : Bytes) → (xs ++ ys) ++ zs ≡ xs ++ (ys ++ zs)
append_assoc [] ys zs = refl
append_assoc (x ∷ xs) ys zs = ap (λ t. x ∷ t) (append_assoc xs ys zs)

append-nil : (xs : Bytes) → xs ++ [] ≡ xs
append-nil [] = refl
append-nil (x ∷ xs) = ap (λ t. x ∷ t) (append-nil xs)

abbrev pub out_of_fuel {ℓ} : {A : Type ℓ} → Result A
out_of_fuel = raise ErrorKind.out_of_fuel (text "")

err-same : {A : Type 0} {e f : Error} → ◌≡◌ {A = Result A} (err e) (err f) → e ≡ f
err-same h = cc

pub err-lifted :
    {A B : Type 0} {e f : Error}
    → ◌≡◌ {A = Result A} (err e) (err f)
    → ◌≡◌ {A = Result B} (err e) (err f)
err-lifted h = ap err (err-same h)

short_write :
    {A : Type 0}
    → ¬ ◌≡◌ {A = Result A} (catalog_error "Evidence vault returned a short write") out_of_fuel
short_write h = cc

module _ (P : Platform) where
  -- `_write_all` writes all of the data, in whatever portions the system takes it.
  pub write_all-ok :
      (fuel : ℕ) (written data' file : Bytes)
      → write_all P fuel written data' ≡ ok file
      → file ≡ written ++ data'
  unfolding write_all
  write_all-ok zero written data' file h = absurd (err-ok h)
  write_all-ok (suc fuel) written [] file h = sym (ok-same h) ∙ sym (append-nil written)
  write_all-ok (suc fuel) written (b ∷ remaining) file h =
      elim (Result-cases (P.os_write (length written) (b ∷ remaining))) [
        | inr (e, failed) ↦ absurd (err-ok (rw failed at h))
        | inl (count, took) ↦ elim (Bool-cases (count == 0)) [
          | inl stuck ↦ absurd (err-ok (rw (took, stuck) at h))
          | inr moved ↦
              write_all-ok fuel (written ++ take count (b ∷ remaining)) (drop count (b ∷ remaining))
                file (rw (took, moved) at h)
              ∙ (append_assoc written (take count (b ∷ remaining)) (drop count (b ∷ remaining))
                  ∙ ap (λ t. written ++ t) (take-append-drop count (b ∷ remaining)))
        ]
      ]

  -- The fuel of `_write_all` suffices: each write takes a byte at least, or raises.
  pub write_all-fuel :
      (fuel : ℕ) (written data' : Bytes)
      → ((position : ℕ) (bytes : Bytes) → P.os_write position bytes ≢ out_of_fuel)
      → length data' < fuel
      → write_all P fuel written data' ≢ out_of_fuel
  unfolding write_all
  write_all-fuel zero written data' real enough h = absurd (omega arith)
  write_all-fuel (suc fuel) written [] real enough h = cc
  write_all-fuel (suc fuel) written (b ∷ remaining) real enough h =
      elim (Result-cases (P.os_write (length written) (b ∷ remaining))) [
        | inr (e, failed) ↦
            real (length written) (b ∷ remaining) (failed ∙ err-lifted (rw failed at h))
        | inl (count, took) ↦ elim (Bool-cases (count == 0)) [
          | inl stuck ↦ short_write (rw (took, stuck) at h)
          | inr moved ↦
              let less = length-drop count (b ∷ remaining) in
              let some_taken = ==→ne count 0 moved in
              write_all-fuel fuel (written ++ take count (b ∷ remaining))
                (drop count (b ∷ remaining)) real (ground (arith, less, some_taken))
                (rw (took, moved) at h)
        ]
      ]

  -- What the loop counts, digests and writes is what the stream carries, within the limit.
  record IsReceived (max_ingest_bytes : ℕ) (p q : Progress) (pieces : List Piece) : Type 0 where
    pub counted : q.byte_size ≡ p.byte_size + length (joined pieces)
    pub digested : q.digested ≡ p.digested ++ joined pieces
    pub written : q.written ≡ p.written ++ joined pieces
    pub bounded : q.byte_size ≤ max_ingest_bytes

  receive-ok :
      (max_ingest_bytes : ℕ) (p q : Progress) (pieces : List Piece)
      → p.byte_size ≤ max_ingest_bytes
      → receive P max_ingest_bytes p pieces ≡ ok q
      → IsReceived max_ingest_bytes p q pieces
  unfolding receive
  receive-ok max_ingest_bytes p q [] fits h =
      subst (λ x. IsReceived max_ingest_bytes p x []) (ok-same h)
        (record {
          counted = omega arith;
          digested = sym (append-nil p.digested);
          written = sym (append-nil p.written);
          bounded = fits;
        })
  receive-ok max_ingest_bytes p q (Piece.failing e ∷ pieces) fits h = absurd (err-ok h)
  receive-ok max_ingest_bytes p q (Piece.not_bytes ∷ pieces) fits h = absurd (err-ok h)
  receive-ok max_ingest_bytes p q (Piece.piece [] ∷ pieces) fits h =
      let r = receive-ok max_ingest_bytes p q pieces fits h in
      record {
        counted = r.counted;
        digested = r.digested;
        written = r.written;
        bounded = r.bounded;
      }
  receive-ok max_ingest_bytes p q (Piece.piece (b ∷ chunk) ∷ pieces) fits h =
      elim (Bool-cases (ltb max_ingest_bytes (p.byte_size + length (b ∷ chunk)))) [
        | inl over ↦ absurd (err-ok (rw over at h))
        | inr within ↦
            let (file, stored, more) = >>=-eq-ok _ _ (rw within at h) in
            let r =
              receive-ok max_ingest_bytes
                (record {
                  byte_size = p.byte_size + length (b ∷ chunk);
                  digested = p.digested ++ b ∷ chunk;
                  written = file;
                })
                q pieces (ltb→le _ _ within) more in
            let all = write_all-ok (suc (length (b ∷ chunk))) p.written (b ∷ chunk) file stored in
            record {
              counted = omega (arith, r.counted, length-append (b ∷ chunk) (joined pieces));
              digested = r.digested ∙ append_assoc p.digested (b ∷ chunk) (joined pieces);
              written =
                  r.written
                  ∙ (ap (λ t. t ++ joined pieces) all
                      ∙ append_assoc p.written (b ∷ chunk) (joined pieces));
              bounded = r.bounded;
            }
      ]

  -- What the block of `ingest` leaves, where it does not raise.
  pub record IsComplete (max_ingest_bytes : ℕ) (r : IngestRequest) (p : Progress) : Type 0 where
    pub counted : p.byte_size ≡ length (joined r.chunks)
    pub digested : p.digested ≡ joined r.chunks
    pub written : p.written ≡ joined r.chunks
    pub positive : 0 < p.byte_size
    pub bounded : p.byte_size ≤ max_ingest_bytes
    pub declared : is_mismatch r.declared_size p.byte_size ≡ false

  pub raise_if-ok :
      (b : Bool) (k : ErrorKind) (m : Message) {A : Type 0} (next : Result A) (a : A)
      → (raise_if b k m >> next) ≡ ok a
      → (b ≡ false) × (next ≡ ok a)
  raise_if-ok true k m next a h = absurd (err-ok h)
  raise_if-ok false k m next a h = (refl, h)

  pub receive_all-IsComplete :
      (max_ingest_bytes : ℕ) (r : IngestRequest) (p : Progress)
      → receive_all P max_ingest_bytes r ≡ ok p
      → IsComplete max_ingest_bytes r p
  unfolding receive_all
  receive_all-IsComplete max_ingest_bytes r p h =
      let (q, received, rest) = >>=-eq-ok (receive P max_ingest_bytes (at_start P) r.chunks) _ h in
      let (some_bytes, later) = raise_if-ok (q.byte_size == 0) _ _ _ p rest in
      let (matches, last) = raise_if-ok (is_mismatch r.declared_size q.byte_size) _ _ _ p later in
      let (done, synced, same) = >>=-eq-ok (P.fsync q.written) (λ done. ok q) last in
      let got = receive-ok max_ingest_bytes (at_start P) q r.chunks (omega arith) received in
      subst (IsComplete max_ingest_bytes r) (ok-same same) (record {
        counted = got.counted ∙ omega arith;
        digested = got.digested;
        written = got.written;
        positive = ground arith;
        bounded = got.bounded;
        declared = matches;
      })
