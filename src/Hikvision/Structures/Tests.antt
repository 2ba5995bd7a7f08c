-- ===== src/Hikvision/Structures/Tests.antt =====
-- The master sector of the sample disk, and the theorems on master sectors at it.
use sih.Common.{◌≡◌, ◌↔◌, refl, [], slice, ok}
use sih.Common.Bytes.{Bytes, unpack_from}
use sih.Common.Ensures.{Ensures}
use sih.Hikvision.Sample.{disk}
use sih.Hikvision.Structures.{
  MasterSector, read_fields, from_bytes, validate_region, capacity_warnings, block_warnings,
  span_warnings, validate,
}
use sih.Hikvision.Structures.Layout.{IsLaidOut, validate_iff}
use sih.Hikvision.Structures.Parsing.{IsFormatError, IsParsed, sector_of, from_bytes-Ensures}

abbrev sector : Bytes
sector = slice disk 0 0xe4

abbrev master : MasterSector
master = sector_of sector 0 0

from_bytes-sector : from_bytes sector 0 0 ≡ ok master
unfolding from_bytes read_fields unpack_from
from_bytes-sector = refl

validate-master : validate master 5120 ≡ []
unfolding validate validate_region capacity_warnings block_warnings span_warnings
validate-master = refl

from_bytes-Ensures_example : Ensures IsFormatError (IsParsed sector 0 0) (from_bytes sector 0 0)
from_bytes-Ensures_example = from_bytes-Ensures sector 0 0

validate_iff_example : (validate master 5120 ≡ []) ↔ IsLaidOut master 5120
validate_iff_example = validate_iff master 5120
