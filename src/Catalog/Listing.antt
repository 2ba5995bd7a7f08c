-- ===== src/Catalog/Listing.antt =====
-- `EvidenceCatalog.list_for_case` (evidence/catalog.py).
use sih.Common.{Bool, ◌&&◌, ◌||◌, List, [], ◌∷◌, ltb, ◌==◌, if◌then◌else◌, Result, ok, ◌>>=◌}
use sih.Common.Bytes.{bytes_eq}
use sih.Common.Text.{Text, text_lt}
use sih.Catalog.{Platform, Catalog, EvidenceRecord, record_from_row}

-- ORDER BY created_at, source_id
abbrev pub evidence_before : EvidenceRecord → EvidenceRecord → Bool
evidence_before r s =
    ltb r.created_at s.created_at
    || ((r.created_at == s.created_at) && text_lt r.source_id s.source_id)

unfoldable pub insert_evidence : EvidenceRecord → List EvidenceRecord → List EvidenceRecord
insert_evidence r [] = r ∷ []
insert_evidence r (s ∷ rs) =
    let later = insert_evidence r rs in if evidence_before s r then s ∷ later else r ∷ s ∷ rs

-- SELECT * FROM evidence_sources WHERE case_id = ? ORDER BY created_at, source_id
unfoldable pub rows_of_case : Text → List EvidenceRecord → List EvidenceRecord
rows_of_case case_id [] = []
rows_of_case case_id (r ∷ rs) =
    let later = rows_of_case case_id rs in
    if bytes_eq r.case_id case_id then insert_evidence r later else later

module _ (P : Platform) where
  unfoldable pub records_from_rows : List EvidenceRecord → Catalog → Result (List EvidenceRecord)
  records_from_rows [] c = ok []
  records_from_rows (r ∷ rs) c = do
    first ← record_from_row P r c
    rest ← records_from_rows rs c
    ok (first ∷ rest)

  -- `list_for_case`
  unfoldable pub list_for_case : Text → Catalog → Result (List EvidenceRecord)
  list_for_case case_id c = records_from_rows (rows_of_case case_id c.sources) c
