-- ===== src/Transport/Status.antt =====
-- crates/transport/src/status.rs: the structured status code and its packing into a `u32`.
-- A `u8`, `u16` or `u32` is a number below 2^8, 2^16 or 2^32; an `as` cast keeps the low bits.
pub mod Packing
mod Tests
use Prim.Native.Nat.{bit_and, bit_or}
use overseerd.Base.{ℕ, zero, suc, ◌*◌, ◌/◌, ◌%◌, ◌^◌, ◌<◌, Bool, ◌==◌}

-- `PredefinedCode`, a `#[repr(u8)]` enum.
pub data PredefinedCode : Type 0 where
  empty internal bad_input not_found unauthorized unknown_error_code : PredefinedCode

-- `PredefinedCode::to_byte`
pub to_byte : PredefinedCode → ℕ
to_byte empty = 0
to_byte internal = 1
to_byte bad_input = 2
to_byte not_found = 3
to_byte unauthorized = 4
to_byte unknown_error_code = 255

-- `PredefinedCode::from_byte`
pub from_byte : ℕ → PredefinedCode
from_byte zero = empty
from_byte (suc zero) = internal
from_byte (suc (suc zero)) = bad_input
from_byte (suc (suc (suc zero))) = not_found
from_byte (suc (suc (suc (suc zero)))) = unauthorized
from_byte _ = unknown_error_code

-- `StatusCode`; `flags` are the bits of the `u8` bit set.
pub record StatusCode : Type 0 where
  pub flags : ℕ
  pub predefined : PredefinedCode
  pub custom : ℕ

-- The field types of the struct.
pub record IsWide (c : StatusCode) : Type 0 where
  pub flags_u8 : c.flags < 2 ^ 8
  pub custom_u16 : c.custom < 2 ^ 16

-- `StatusCode::new`, `new_with_custom`, `From<PredefinedCode>`
pub new_with_custom : PredefinedCode → ℕ → ℕ → StatusCode
new_with_custom predefined flags custom = record {
  flags = flags;
  predefined = predefined;
  custom = custom;
}

-- `StatusCode::contains`: every bit of `flag` is set.
pub contains : StatusCode → ℕ → Bool
contains c flag = bit_and c.flags flag == flag

abbrev flags_shift : ℕ
flags_shift = 24

abbrev predefined_shift : ℕ
predefined_shift = 16

-- `u32 << k`: bits past the width are lost.
abbrev shl32 : ℕ → ℕ → ℕ
shl32 x k = (x * 2 ^ k) % 2 ^ 32

-- `StatusCode::raw`
pub raw : StatusCode → ℕ
unfolding to_byte
raw c =
    bit_or (bit_or (shl32 c.flags flags_shift) (shl32 (to_byte c.predefined) predefined_shift))
      c.custom

-- `StatusCode::from_raw`; `Flags::from_bits_retain` keeps every bit.
pub from_raw : ℕ → StatusCode
unfolding from_byte
from_raw raw = record {
  flags = (raw / 2 ^ flags_shift) % 2 ^ 8;
  predefined = from_byte ((raw / 2 ^ predefined_shift) % 2 ^ 8);
  custom = raw % 2 ^ 16;
}
