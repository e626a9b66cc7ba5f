-- ===== src/Transport/Status/Tests.antt =====
-- Runs of the packing, and its theorems at concrete words.
use overseerd.Base.{◌≡◌, refl, arith, ◌<◌, ◌+◌, ◌*◌, ◌^◌, ◌/◌, ◌%◌, ◌⊎◌}
use overseerd.Transport.Status.{StatusCode, raw, from_raw, unauthorized, new_with_custom}
use overseerd.Transport.Status.Packing.{from_raw-raw, raw-from_raw}

abbrev denied : StatusCode
denied = record { flags = 1; predefined = unauthorized; custom = 0x1234 }

raw_denied : raw (new_with_custom unauthorized 1 0x1234) ≡ 0x0104_1234
unfolding raw new_with_custom
raw_denied = refl

from_raw-raw_example : (raw denied < 2 ^ 32) × (from_raw (raw denied) ≡ denied)
from_raw-raw_example = from_raw-raw denied (omega arith)

raw-from_raw_example :
    (raw (from_raw 0x0177_0005) ≡ 0x0177_0005)
    ⊎ ((4 < 0x0177_0005 / 2 ^ 16 % 2 ^ 8)
        × (raw (from_raw 0x0177_0005)
            ≡ 0x0177_0005 / 2 ^ 24 * 2 ^ 24 + 255 * 2 ^ 16 + 0x0177_0005 % 2 ^ 16))
raw-from_raw_example = raw-from_raw 0x0177_0005 (omega arith)
