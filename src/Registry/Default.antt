-- ===== src/Registry/Default.antt =====
-- `default_adapter_registry` of adapters/registry.py: the adapter of the repository.
use sih.Common.{List, [], ◌∷◌, ◌*◌, Result, ◌>>=◌}
use sih.Adapter.{device_metadata, enumerate_active, extract}
use sih.Hikvision.Adapter.Probe.{probe}
use sih.Registry.{AdapterRegistration, AdapterMaturity, checked_registration, new_registry}

-- `HikvisionAdapter()`, as it is registered, with its default limits
abbrev pub hikvision_registration : AdapterRegistration
hikvision_registration = record {
  adapter_id = "hikvision";
  version = "0.1.0";
  vendor = "Hikvision";
  family = "Proprietary DVR disk (observed 48-byte HIKBTREE family)";
  maturity = AdapterMaturity.experimental;
  available_capabilities = device_metadata ∷ enumerate_active ∷ extract ∷ [];
  validated_models = [];
  notes = "Synthetic fixtures pass; authorized real-device validation is pending" ∷ [];
  probe = probe (50 * 1024 * 1024) (1024 * 1024);
}

-- `default_adapter_registry`
unfoldable pub default_adapter_registry : Result (List AdapterRegistration)
default_adapter_registry = do
  registered ← checked_registration hikvision_registration
  new_registry (registered ∷ [])
