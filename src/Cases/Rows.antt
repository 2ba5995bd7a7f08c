-- ===== src/Cases/Rows.antt =====
-- What the UPDATE of `transition_case` (cases/store.py) does to the rows of the cases.
use sih.Common.{
  ℕ, ◌+◌, ◌≡◌, refl, sym, ap, ◌∙◌, true, false, ◌&&◌, Option, none, some, List, [], ◌∷◌, ◌==◌,
  arith, Bool-cases, inl, inr,
}
use sih.Common.Bytes.{bytes_eq, bytes_eq→eq}
use sih.Common.Text.{Text}
use sih.Cases.Domain.{CaseStatus, CaseRecord}
use sih.Cases.Tables.{find_case, update_row, update_status}

find_case-here :
    (c : Text) (x : CaseRecord) (cs : List CaseRecord)
    → bytes_eq x.case_id c ≡ true
    → find_case c (x ∷ cs) ≡ some x
unfolding find_case
find_case-here c x cs same = rw same

find_case-there :
    (c : Text) (x : CaseRecord) (cs : List CaseRecord)
    → bytes_eq x.case_id c ≡ false
    → find_case c (x ∷ cs) ≡ find_case c cs
unfolding find_case
find_case-there c x cs other = rw other

find_case-nil : (c : Text) → find_case c [] ≡ none
unfolding find_case
find_case-nil c = refl

pub some-injective : {A : Type 0} {a b : A} → some a ≡ some b → a ≡ b
some-injective h = cc

bytes_eq-differs :
    (x c w : Text) → bytes_eq c w ≡ false → bytes_eq x w ≡ true → bytes_eq x c ≡ false
bytes_eq-differs x c w differs same = elim (Bool-cases (bytes_eq x c)) [
  | inl e ↦ cc (differs, same, bytes_eq→eq x c e)
  | inr e ↦ e
]

module _ (c : Text) (v : ℕ) (s : CaseStatus) (t : ℕ) where
  case_id-update_row : (x : CaseRecord) → (update_row c v s t x).case_id ≡ x.case_id
  unfolding update_row
  case_id-update_row x = elim (Bool-cases (bytes_eq x.case_id c && x.version == v)) [
    | inl hit ↦ rw hit
    | inr miss ↦ rw miss
  ]

  update_row-hit :
      (x : CaseRecord)
      → bytes_eq x.case_id c ≡ true
      → x.version ≡ v
      → update_row c v s t x ≡ record x { status = s; version = x.version + 1; updated_at = t }
  unfolding update_row
  update_row-hit x same version = ground arith

  update_row-miss : (x : CaseRecord) → bytes_eq x.case_id c ≡ false → update_row c v s t x ≡ x
  unfolding update_row
  update_row-miss x other = rw other

  -- The updated row of a case that was found at the expected version.
  pub find_case-update_status :
      (cs : List CaseRecord) (row : CaseRecord)
      → find_case c cs ≡ some row
      → row.version ≡ v
      → find_case c (update_status c v s t cs)
        ≡ some (record row { status = s; version = row.version + 1; updated_at = t })
  unfolding update_status
  find_case-update_status [] row found version = cc (found, find_case-nil c)
  find_case-update_status (x ∷ cs) row found version = elim (Bool-cases (bytes_eq x.case_id c)) [
    | inl same ↦
        let is_row : x ≡ row = some-injective (sym (find_case-here c x cs same) ∙ found) in
        find_case-here c (update_row c v s t x) _
          (ap (λ i. bytes_eq i c) (case_id-update_row x) ∙ same)
        ∙ ap some (update_row-hit x same (ap (λ r. r.version) is_row ∙ version))
        ∙ ap {A = CaseRecord} {B = Option CaseRecord}
            (λ r. some (record r { status = s; version = r.version + 1; updated_at = t })) is_row
    | inr other ↦
        find_case-there c (update_row c v s t x) _
          (ap (λ i. bytes_eq i c) (case_id-update_row x) ∙ other)
        ∙ find_case-update_status cs row (sym (find_case-there c x cs other) ∙ found) version
  ]

  -- The other rows stay as they were.
  pub find_case-update_status_other :
      (wanted : Text) (cs : List CaseRecord)
      → bytes_eq c wanted ≡ false
      → find_case wanted (update_status c v s t cs) ≡ find_case wanted cs
  unfolding update_status
  find_case-update_status_other wanted [] differs = refl
  find_case-update_status_other wanted (x ∷ cs) differs =
      elim (Bool-cases (bytes_eq x.case_id wanted)) [
        | inl same ↦
            ap (λ r. find_case wanted (r ∷ update_status c v s t cs))
              (update_row-miss x (bytes_eq-differs x.case_id c wanted differs same))
            ∙ find_case-here wanted x _ same
            ∙ sym (find_case-here wanted x cs same)
        | inr other ↦
            find_case-there wanted (update_row c v s t x) _
              (ap (λ i. bytes_eq i wanted) (case_id-update_row x) ∙ other)
            ∙ find_case-update_status_other wanted cs differs
            ∙ sym (find_case-there wanted x cs other)
      ]
