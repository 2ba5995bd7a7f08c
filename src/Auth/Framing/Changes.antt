-- ===== src/Auth/Framing/Changes.antt =====
-- How the number of usable administrators changes with one account.
use sih.Common.{
  some-same, ℕ, ◌+◌, ◌≤◌, ◌<◌, ◌≡◌, refl, inl, inr, Bool, true, false, not, ◌&&◌, some, List, [],
  ◌∷◌, leb, if◌then◌else◌, arith, Bool-cases,
}
use sih.Common.Bytes.{bytes_eq}
use sih.Common.Text.{Text}
use sih.Auth.Domain.{User, is_administrator}
use sih.Auth.Tables.{Database, find_user, update_user, is_usable, count_usable}
use sih.Auth.Framing.{IsSafeChange}
use sih.Auth.Accounts.{set_password, set_active, restore}

abbrev one : Bool → ℕ
one b = if b then 1 else 0

-- A change of the row that was found counts for that row only.
count_usable-update_user :
    (user_id : Text) (f : User → User) (us : List User) (row : User)
    → find_user user_id us ≡ some row
    → count_usable (update_user user_id f us) + one (is_usable row)
      ≡ count_usable us + one (is_usable (f row))
unfolding count_usable update_user find_user
count_usable-update_user user_id f [] row found = cc
count_usable-update_user user_id f (u ∷ us) row found =
    elim (Bool-cases (bytes_eq u.user_id user_id)) [
      | inl here ↦ let same = some-same (rw here at found) in rw (here, same) (omega arith)
      | inr other ↦
          rw other (omega (arith, count_usable-update_user user_id f us row (rw other at found)))
    ]

one-le : (a b : Bool) → (a ≡ true → b ≡ true) → one a ≤ one b
one-le true b h = ground (arith, h refl)
one-le false b h = omega arith

-- A change that leaves a usable account usable.
count_usable_mono :
    (user_id : Text) (f : User → User) (us : List User)
    → ((u : User) → is_usable u ≡ true → is_usable (f u) ≡ true)
    → count_usable us ≤ count_usable (update_user user_id f us)
unfolding count_usable update_user
count_usable_mono user_id f [] keeps = omega arith
count_usable_mono user_id f (u ∷ us) keeps = elim (Bool-cases (bytes_eq u.user_id user_id)) [
  | inl here ↦ rw here (omega (arith, one-le _ _ (keeps u)))
  | inr other ↦ rw other (omega (arith, count_usable_mono user_id f us keeps))
]

-- The row that passed `_protect_last_administrator` may become unusable.
pub guarded_change :
    (db : Database) (user_id : Text) (f : User → User) (row : User)
    → find_user user_id db.users ≡ some row
    → (is_usable row ≡ true → 1 < count_usable db.users)
    → IsSafeChange db user_id f
guarded_change db user_id f row found spare = elim (Bool-cases (is_usable row)) [
  | inl usable ↦
      let changed = count_usable-update_user user_id f db.users row found in
      let more = spare usable in
      record { remains = λ h. ground (arith, rw usable at changed, more) }
  | inr unusable ↦
      let changed = count_usable-update_user user_id f db.users row found in
      record { remains = λ h. ground (arith, rw unusable at changed) }
]

pub mono_change :
    (db : Database) (user_id : Text) (f : User → User)
    → ((u : User) → is_usable u ≡ true → is_usable (f u) ≡ true)
    → IsSafeChange db user_id f
mono_change db user_id f keeps = record {
  remains = λ h. omega (arith, count_usable_mono user_id f db.users keeps);
}

usable_lem : (a b c : Bool) → a && (b && c) ≡ true → (a ≡ true) × ((b ≡ true) × (c ≡ true))
usable_lem true true true h = (refl, (refl, refl))
usable_lem true true false h = cc
usable_lem true false c h = cc
usable_lem false b c h = cc

pub set_password-false_mono :
    (encoded : Text) (u : User)
    → is_usable u ≡ true
    → is_usable (set_password encoded false u) ≡ true
set_password-false_mono encoded u h =
    let parts = usable_lem (is_administrator u.role) u.active (not u.must_change_password) h in
    rw (parts.0, parts.1.0) refl

pub set_active-true_mono : (u : User) → is_usable u ≡ true → is_usable (set_active true u) ≡ true
set_active-true_mono u h =
    let parts = usable_lem (is_administrator u.role) u.active (not u.must_change_password) h in
    rw (parts.0, parts.1.1) refl

pub restore_mono :
    (encoded : Text) (u : User) → is_usable u ≡ true → is_usable (restore encoded u) ≡ true
restore_mono encoded u h =
    let parts = usable_lem (is_administrator u.role) u.active (not u.must_change_password) h in
    rw (parts.0) refl

pub spare_lem : (usable : Bool) (n : ℕ) → usable && leb n 1 ≡ false → usable ≡ true → 1 < n
spare_lem true n room usable = ground arith
spare_lem false n room usable = cc
