-- ===== src/Auth/Actions/Rules.antt =====
-- Rules for what an action leaves, on every way out of it.
use sih.Common.{
  Bool, true, false, ◌≡◌, refl, subst, inl, inr, Message, ErrorKind, Result, ok, err, Bool-cases,
}
use sih.Auth.Tables.{Database}
use sih.Auth.Actions.{
  Action, continue, ◌>>=◌, lift, get, put, fail_if, settle, transaction, is_authentication,
}

-- A value leaves `Post`, an error leaves `Fail`.
abbrev pub Outcome {ℓ} :
    {A : Type ℓ} → (A → Database → Type 0) → (Database → Type 0) → Database × Result A → Type 0
Outcome Post Fail (db, ok a) = Post a db
Outcome Post Fail (db, err e) = Fail db

pub record Leaves {ℓ} {A : Type ℓ} (Post : A → Database → Type 0) (Fail : Database → Type 0)
    (r : Database × Result A) : Type 0 where
  pub outcome : Outcome Post Fail r

module _ {ℓ κ} {A : Type ℓ} {B : Type κ} {Mid : A → Database → Type 0}
    {Post : B → Database → Type 0} {Fail : Database → Type 0} where
  continue-Leaves :
      (r : Database × Result A) (next : A → Action B)
      → Leaves Mid Fail r
      → ((a : A) (db : Database) → Mid a db → Leaves Post Fail (next a db))
      → Leaves Post Fail (continue r next)
  continue-Leaves (db, ok a) next h k = k a db h.outcome
  continue-Leaves (db, err e) next h k = record { outcome = h.outcome }

  pub Leaves-bind :
      (first : Action A) (next : A → Action B) (db : Database)
      → Leaves Mid Fail (first db)
      → ((a : A) (after : Database) → Mid a after → Leaves Post Fail (next a after))
      → Leaves Post Fail ((first >>= next) db)
  unfolding ◌>>=◌
  Leaves-bind first next db h k = continue-Leaves (first db) next h k

module _ {ℓ} {A : Type ℓ} {Post : A → Database → Type 0} {Fail : Database → Type 0} where
  pub Leaves-fail_if :
      (b : Bool) (k : ErrorKind) (m : Message) (next : Action A) (db : Database)
      → (b ≡ true → Fail db)
      → (b ≡ false → Leaves Post Fail (next db))
      → Leaves Post Fail ((fail_if b k m >>= λ done. next) db)
  unfolding ◌>>=◌
  Leaves-fail_if true k m next db failed passed = record { outcome = failed refl }
  Leaves-fail_if false k m next db failed passed = passed refl

  pub Leaves-lift :
      (r : Result A) (db : Database)
      → ((a : A) → r ≡ ok a → Post a db)
      → Fail db
      → Leaves Post Fail (lift r db)
  Leaves-lift (ok a) db value failed = record { outcome = value a refl }
  Leaves-lift (err e) db value failed = record { outcome = failed }

  -- What a call that returned has left.
  pub Leaves-value :
      (r : Database × Result A) (a : A) (after : Database)
      → Leaves Post Fail r
      → r ≡ (after, ok a)
      → Post a after
  Leaves-value r a after h returned = subst (Outcome Post Fail) returned h.outcome

  -- A transaction leaves the database as it was, or as the block left it.
  settle-Leaves :
      (before : Database) (r : Database × Result A)
      → Fail before
      → Leaves Post Fail r
      → Leaves Post Fail (settle before r)
  settle-Leaves before (after, ok a) kept h = record { outcome = h.outcome }
  settle-Leaves before (after, err e) kept h = elim (Bool-cases (is_authentication e.kind)) [
    | inl keeps ↦ rw keeps (record { outcome = h.outcome })
    | inr undoes ↦ rw undoes (record { outcome = kept })
  ]

  pub Leaves-transaction :
      (block : Action A) (db : Database)
      → Fail db
      → Leaves Post Fail (block db)
      → Leaves Post Fail (transaction block db)
  unfolding transaction
  Leaves-transaction block db kept h = settle-Leaves db (block db) kept h

  pub Leaves-weaken :
      {Post' : A → Database → Type 0} {Fail' : Database → Type 0} (r : Database × Result A)
      → ((a : A) (db : Database) → Post a db → Post' a db)
      → ((db : Database) → Fail db → Fail' db)
      → Leaves Post Fail r
      → Leaves Post' Fail' r
  Leaves-weaken (db, ok a) value failed h = record { outcome = value a db h.outcome }
  Leaves-weaken (db, err e) value failed h = record { outcome = failed db h.outcome }

module _ {ℓ κ} {A : Type ℓ} {B : Type κ} {Post : B → Database → Type 0}
    {Fail : Database → Type 0} where
  pub Leaves-bind-lift :
      (r : Result A) (next : A → Action B) (db : Database)
      → Fail db
      → ((a : A) → r ≡ ok a → Leaves Post Fail (next a db))
      → Leaves Post Fail ((lift r >>= next) db)
  unfolding ◌>>=◌
  Leaves-bind-lift (ok a) next db failed passed = passed a refl
  Leaves-bind-lift (err e) next db failed passed = record { outcome = failed }

module _ {κ} {B : Type κ} {Post : B → Database → Type 0} {Fail : Database → Type 0} where
  pub Leaves-bind-get :
      (next : Database → Action B) (db : Database)
      → Leaves Post Fail (next db db)
      → Leaves Post Fail ((get >>= next) db)
  unfolding ◌>>=◌
  Leaves-bind-get next db h = h

  pub Leaves-bind-put :
      (next : Action B) (written db : Database)
      → Leaves Post Fail (next written)
      → Leaves Post Fail ((put written >>= λ done. next) db)
  unfolding ◌>>=◌
  Leaves-bind-put next written db h = h

pub Leaves-any {ℓ} :
    {A : Type ℓ} (r : Database × Result A) → Leaves (λ a db. Unit {0}) (λ db. Unit {0}) r
Leaves-any (db, ok a) = record { outcome = tt }
Leaves-any (db, err e) = record { outcome = tt }
