-- ===== src/Registry.antt =====
-- adapters/registry.py: the registered adapters, the probe of evidence with all of them and the choice
-- of the best match. A confidence, a threshold and a margin are in hundredths, whose floating point
-- values are ordered as they are; the difference of two confidences is that of the floating point
-- values. A negative one, which sorted results do not have, counts as 0: both are within any margin.
pub mod Choice
pub mod Default
mod Tests
use sih.Common.{
  ℕ, ◌+◌, Bool, true, false, not, ◌&&◌, ◌||◌, String, List, [], ◌∷◌, length, ltb, leb, ◌==◌,
  if◌then◌else◌, text, listing, ErrorKind, Error, Result, ok, err, raise, raise_if, ◌>>=◌, ◌>>◌,
}
use sih.Common.Bytes.{bytes_eq}
use sih.Common.Double.{double, double_sub}
use sih.Common.Text.{Text, codes, is_blank, text_lt}
use sih.Evidence.Readable.{ReadableEvidence}
use sih.Adapter.{AdapterCapability, ProbeResult, is_nil}

pub data AdapterMaturity : Type 0 where
  experimental pilot validated : AdapterMaturity

-- The fields of the adapter and of its registration.
pub record AdapterRegistration : Type 0 where
  pub adapter_id : String
  pub version : String
  pub vendor : String
  pub family : String
  pub maturity : AdapterMaturity
  pub available_capabilities : List AdapterCapability
  pub validated_models : List String
  pub notes : List String
  pub probe : ReadableEvidence → Result ProbeResult

-- What an adapter raised: its class and message.
pub record AdapterProbeFailure : Type 0 where
  pub adapter_id : String
  pub raised : Error

pub record MultiVendorProbeReport : Type 0 where
  pub results : List ProbeResult
  pub failures : List AdapterProbeFailure

abbrev pub is_validated : AdapterMaturity → Bool
is_validated AdapterMaturity.validated = true
is_validated _ = false

-- `AdapterRegistration.__post_init__`
unfoldable pub checked_registration : AdapterRegistration → Result AdapterRegistration
checked_registration r = do
  raise_if (is_blank (codes r.adapter_id) || is_blank (codes r.version)) ErrorKind.value_error
      (text "Registered adapter identifiers cannot be empty")
  raise_if (is_blank (codes r.vendor) || is_blank (codes r.family)) ErrorKind.value_error
      (text "Registered vendor and family cannot be empty")
  raise_if (is_validated r.maturity && is_nil r.validated_models) ErrorKind.value_error
      (text "A validated adapter requires at least one validated model")
  ok r

abbrev pub same_id : String → String → Bool
same_id a b = bytes_eq (codes a) (codes b)

unfoldable pub is_registered : String → List AdapterRegistration → Bool
is_registered adapter_id [] = false
is_registered adapter_id (r ∷ rs) = same_id r.adapter_id adapter_id || is_registered adapter_id rs

unfoldable pub any_duplicate : List AdapterRegistration → Bool
any_duplicate [] = false
any_duplicate (r ∷ rs) = is_registered r.adapter_id rs || any_duplicate rs

-- `AdapterRegistry.__init__`
unfoldable pub new_registry : List AdapterRegistration → Result (List AdapterRegistration)
new_registry registrations =
    raise_if (any_duplicate registrations) ErrorKind.value_error
      (text "Adapter identifiers must be unique")
    >> ok registrations

-- `AdapterRegistry.registration`
unfoldable pub registration : String → List AdapterRegistration → Result AdapterRegistration
registration adapter_id [] =
    raise ErrorKind.lookup_error (listing "Adapter is not registered: " (adapter_id ∷ []))
registration adapter_id (r ∷ rs) =
    let later = registration adapter_id rs in
    if same_id r.adapter_id adapter_id then ok r else later

-- The block that `probe_all` tries.
unfoldable pub probe_one : AdapterRegistration → ReadableEvidence → Result ProbeResult
probe_one r source = do
  result ← r.probe source
  raise_if (not (same_id result.adapter_id r.adapter_id)) ErrorKind.value_error
      (text "Adapter returned a mismatched identifier")
  ok result

abbrev pub collect :
    AdapterRegistration → Result ProbeResult → MultiVendorProbeReport → MultiVendorProbeReport
collect r (ok result) report = record report { results = result ∷ report.results }
collect r (err e) report = record report {
  failures = record { adapter_id = r.adapter_id; raised = e } ∷ report.failures;
}

-- The loop of `probe_all`: results and failures in the order of the registrations.
unfoldable pub probe_each : List AdapterRegistration → ReadableEvidence → MultiVendorProbeReport
probe_each [] source = record { results = []; failures = [] }
probe_each (r ∷ rs) source = collect r (probe_one r source) (probe_each rs source)

-- The key `(-result.confidence, result.adapter_id)` is smaller.
abbrev pub comes_before : ProbeResult → ProbeResult → Bool
comes_before a b =
    ltb b.confidence a.confidence
    || ((a.confidence == b.confidence) && text_lt (codes a.adapter_id) (codes b.adapter_id))

-- A result goes behind those of a smaller key, which keeps the order of equal ones.
unfoldable pub insert_result : ProbeResult → List ProbeResult → List ProbeResult
insert_result r [] = r ∷ []
insert_result r (s ∷ rs) =
    let later = insert_result r rs in if comes_before s r then s ∷ later else r ∷ s ∷ rs

-- `results.sort`
unfoldable pub sort_results : List ProbeResult → List ProbeResult
sort_results [] = []
sort_results (r ∷ rs) = insert_result r (sort_results rs)

-- `probe_all`
unfoldable pub probe_all : List AdapterRegistration → ReadableEvidence → MultiVendorProbeReport
probe_all registrations source =
    let report = probe_each registrations source in
    record report { results = sort_results report.results }

-- The results of at least that confidence.
unfoldable pub candidates : ℕ → List ProbeResult → List ProbeResult
candidates minimum [] = []
candidates minimum (r ∷ rs) =
    let later = candidates minimum rs in if leb minimum r.confidence then r ∷ later else later

-- `matches`
unfoldable pub matches : MultiVendorProbeReport → List ProbeResult
matches report = candidates 1 report.results

-- `best.confidence - candidates[1].confidence <= ambiguity_margin`
abbrev pub is_within_margin : (best second ambiguity_margin : ℕ) → Bool
is_within_margin best second ambiguity_margin =
    leb (double_sub (double best) (double second)) (double ambiguity_margin)

abbrev pub choose_best : ℕ → List ProbeResult → Result ProbeResult
choose_best ambiguity_margin [] =
    raise ErrorKind.unsupported_evidence_error
      (text "No adapter met the required confidence threshold")
choose_best ambiguity_margin (best ∷ []) = ok best
choose_best ambiguity_margin (best ∷ second ∷ rest) =
    if is_within_margin best.confidence second.confidence ambiguity_margin
    then raise ErrorKind.ambiguous_adapter_error
        (listing "Evidence matches both " (best.adapter_id ∷ second.adapter_id ∷ []))
    else ok best

-- `best_match`
unfoldable pub best_match :
    (minimum_confidence ambiguity_margin : ℕ) → MultiVendorProbeReport → Result ProbeResult
best_match minimum_confidence ambiguity_margin report = do
  raise_if (ltb 100 minimum_confidence) ErrorKind.value_error
      (text "Minimum confidence must be between zero and one")
  raise_if (ltb 100 ambiguity_margin) ErrorKind.value_error
      (text "Ambiguity margin must be between zero and one")
  choose_best ambiguity_margin (candidates minimum_confidence report.results)
