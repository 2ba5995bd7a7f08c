-- ===== src/Registry/Tests.antt =====
-- Witnesses of the theorems on the adapter registry: two adapters with results and one that raises.
use sih.Common.{
  ℕ, ◌≡◌, String, List, [], ◌∷◌, Result, ok, raise, text, listing, ErrorKind, arith, refl,
}
use sih.Common.Double.{double, double_sub, round_ratio, spare_bits, nearest}
use sih.Common.Ensures.{Ensures}
use sih.Common.Text.{is_blank, is_space, strip, lstrip, rstrip}
use sih.Evidence.Readable.{ReadableEvidence}
use sih.Adapter.{ProbeResult}
use sih.Registry.{
  checked_registration, new_registry, any_duplicate, is_registered, AdapterRegistration,
  AdapterMaturity, MultiVendorProbeReport, probe_one, probe_each, insert_result, sort_results,
  probe_all, candidates, best_match,
}
use sih.Registry.Default.{default_adapter_registry, hikvision_registration}
use sih.Registry.Choice.{IsBest, NoChoice, probe_all-best_match}

abbrev result_of : String → ℕ → ProbeResult
result_of adapter_id confidence = record {
  adapter_id = adapter_id;
  vendor = "vendor";
  filesystem = "filesystem";
  confidence = confidence;
  evidence = [];
  capabilities = [];
  warnings = [];
}

abbrev registered : String → (ReadableEvidence → Result ProbeResult) → AdapterRegistration
registered adapter_id probe = record {
  adapter_id = adapter_id;
  version = "1";
  vendor = "vendor";
  family = "family";
  maturity = AdapterMaturity.pilot;
  available_capabilities = [];
  validated_models = [];
  notes = [];
  probe = probe;
}

abbrev registrations : List AdapterRegistration
registrations =
    registered "a" (λ source. ok (result_of "a" 55))
    ∷ registered "b" (λ source. raise ErrorKind.os_error (text ""))
    ∷ registered "c" (λ source. ok (result_of "c" 95))
    ∷ []

abbrev nothing_stored : ReadableEvidence
nothing_stored = record { size = 0; read_at = λ offset size. ok [] }

best_match_run : best_match 50 5 (probe_all registrations nothing_stored) ≡ ok (result_of "c" 95)
unfolding best_match probe_all probe_each probe_one sort_results insert_result candidates double
    double_sub round_ratio spare_bits nearest
best_match_run = refl

abbrev report_of : ℕ → ℕ → MultiVendorProbeReport
report_of best second = record {
  results = result_of "a" best ∷ result_of "b" second ∷ [];
  failures = [];
}

-- 0.95 - 0.9 is at most 0.05, and 0.55 - 0.5 is not.
best_match_ambiguous :
    best_match 50 5 (report_of 95 90)
    ≡ raise ErrorKind.ambiguous_adapter_error (listing "Evidence matches both " ("a" ∷ "b" ∷ []))
unfolding best_match candidates double double_sub round_ratio spare_bits nearest
best_match_ambiguous = refl

best_match_clear : best_match 50 5 (report_of 55 50) ≡ ok (result_of "a" 55)
unfolding best_match candidates double double_sub round_ratio spare_bits nearest
best_match_clear = refl

probe_all-best_match_example :
    Ensures
      (NoChoice 50 5 (probe_all registrations nothing_stored).results)
      (IsBest 50 5 (probe_all registrations nothing_stored).results)
      (best_match 50 5 (probe_all registrations nothing_stored))
probe_all-best_match_example =
    probe_all-best_match 50 5 registrations nothing_stored (omega arith) (omega arith)

default_adapter_registry_run : default_adapter_registry ≡ ok (hikvision_registration ∷ [])
unfolding default_adapter_registry checked_registration new_registry any_duplicate is_registered
    is_blank strip lstrip rstrip is_space
default_adapter_registry_run = refl
