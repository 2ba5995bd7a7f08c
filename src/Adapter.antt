-- ===== src/Adapter.antt =====
-- adapters/base.py: what an adapter reports, with the checks that each value makes of itself. A
-- confidence is in hundredths and a time in Unix seconds: the adapters only produce literals of
-- the one and whole seconds of the other. A channel's text is the decimal numeral of its number.
use sih.Common.{
  ℕ, Bool, true, false, ◌&&◌, Option, some, String, List, [], ◌∷◌, ltb, ◌==◌, Message, text,
  ErrorKind, Result, ok, raise_if, ◌>>◌,
}
use sih.Common.Bytes.{Bytes}
use sih.Common.Text.{Text, is_blank}

pub data AdapterCapability : Type 0 where
  enumerate_active enumerate_orphaned extract reconstruct device_metadata : AdapterCapability

pub data RecordingState : Type 0 where
  active orphaned overwritten carved_candidate uncertain : RecordingState

pub record ProbeEvidence : Type 0 where
  pub description : String
  pub offset : ℕ
  -- the bytes whose hexadecimal digits are reported
  pub observed : Bytes

pub record ProbeResult : Type 0 where
  pub adapter_id : String
  pub vendor : String
  pub filesystem : String
  pub confidence : ℕ
  pub evidence : List ProbeEvidence
  pub capabilities : List AdapterCapability
  pub warnings : List Message

abbrev pub is_nil {ℓ} : {A : Type ℓ} → List A → Bool
is_nil [] = true
is_nil (x ∷ xs) = false

-- `ProbeResult.__post_init__`
unfoldable pub checked_probe : ProbeResult → Result ProbeResult
checked_probe r = do
  raise_if (ltb 100 r.confidence) ErrorKind.value_error
      (text "Probe confidence must be between 0 and 1")
  raise_if (ltb 0 r.confidence && is_nil r.evidence) ErrorKind.value_error
      (text "A positive probe result requires observable evidence")
  ok r

pub record PhysicalExtent : Type 0 where
  pub offset : ℕ
  pub length : ℕ

-- `PhysicalExtent.__post_init__`
unfoldable pub checked_extent : PhysicalExtent → Result PhysicalExtent
checked_extent e = do
  raise_if (e.length == 0) ErrorKind.value_error
      (text "Physical extent requires a non-negative offset and positive length")
  ok e

pub record RecordingDescriptor : Type 0 where
  pub recording_id : Text
  pub channel : Option ℕ
  pub start_time : Option ℕ
  pub end_time : Option ℕ
  pub timestamp_source : Option String
  pub state : RecordingState
  pub extents : List PhysicalExtent
  pub confidence : ℕ
  pub warnings : List String

abbrev pub ends_early : Option ℕ → Option ℕ → Bool
ends_early (some start) (some end) = ltb end start
ends_early _ _ = false

-- `RecordingDescriptor.__post_init__`
unfoldable pub checked_recording : RecordingDescriptor → Result RecordingDescriptor
checked_recording r = do
  raise_if (is_blank r.recording_id) ErrorKind.value_error
      (text "Recording identifier cannot be empty")
  raise_if (ltb 100 r.confidence) ErrorKind.value_error
      (text "Recording confidence must be between 0 and 1")
  raise_if (ends_early r.start_time r.end_time) ErrorKind.value_error
      (text "Recording end time cannot precede start time")
  raise_if (is_nil r.extents) ErrorKind.value_error
      (text "A recording descriptor requires source provenance extents")
  ok r
