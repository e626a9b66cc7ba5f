-- ===== src/Transport/Status/Packing.antt =====
-- The sections of a packed code, crates/transport/src/status.rs.
use overseerd.Base.{ℕ, ◌+◌, ◌*◌, ◌/◌, ◌%◌, ◌^◌, ◌<◌, ◌≡◌, ◌∙◌, ap, ◌⊎◌, inl, inr, arith}
use overseerd.Base.Bits.{bit_or-disjoint}
use overseerd.Transport.Status.{
  PredefinedCode, StatusCode, IsWide, to_byte, from_byte, raw, from_raw,
}

to_byte_u8 : (p : PredefinedCode) → to_byte p < 2 ^ 8
unfolding to_byte
to_byte_u8 p = ground arith

-- Every category survives the byte.
from_byte-to_byte : (p : PredefinedCode) → from_byte (to_byte p) ≡ p
unfolding from_byte to_byte
from_byte-to_byte p = ground arith

-- A byte is kept, or it is one that no category has, which becomes 255.
to_byte-from_byte :
    (b : ℕ) → (to_byte (from_byte b) ≡ b) ⊎ ((4 < b) × (to_byte (from_byte b) ≡ 255))
unfolding from_byte to_byte
to_byte-from_byte b = ground arith

abbrev upper : StatusCode → ℕ
upper c = c.flags * 2 ^ 24 + to_byte c.predefined * 2 ^ 16

raw-eq-sum : (c : StatusCode) → IsWide c → raw c ≡ upper c + c.custom
unfolding raw
raw-eq-sum c w =
    let p = to_byte c.predefined in
    let p8 = to_byte_u8 c.predefined in
    let high : c.flags * 2 ^ 24 % 2 ^ 32 ≡ c.flags * 2 ^ 24 = omega (arith, w.flags_u8) in
    let mid : p * 2 ^ 16 % 2 ^ 32 ≡ p * 2 ^ 16 = omega arith in
    let joined : upper c ≡ (c.flags * 2 ^ 8 + p) * 2 ^ 16 = omega arith in
    rw (high, mid, bit_or-disjoint 24 c.flags (p * 2 ^ 16) (omega arith), joined)
      (bit_or-disjoint 16 (c.flags * 2 ^ 8 + p) c.custom w.custom_u16)

-- A code whose sections fit their types packs into a word below 2 ^ 32, and unpacking that word
-- gives the code back.
pub from_raw-raw : (c : StatusCode) → IsWide c → (raw c < 2 ^ 32) × (from_raw (raw c) ≡ c)
unfolding from_raw
from_raw-raw c w =
    let p8 = to_byte_u8 c.predefined in
    let sum = raw-eq-sum c w in
    let flags_back : raw c / 2 ^ 24 % 2 ^ 8 ≡ c.flags = omega arith in
    let byte_back : raw c / 2 ^ 16 % 2 ^ 8 ≡ to_byte c.predefined = omega arith in
    let custom_back : raw c % 2 ^ 16 ≡ c.custom = omega arith in
    (
      omega arith,
      λ i. record {
        flags = flags_back i;
        predefined = (ap from_byte byte_back ∙ from_byte-to_byte c.predefined) i;
        custom = custom_back i;
      },
    )

from_raw-IsWide : (r : ℕ) → IsWide (from_raw r)
unfolding from_raw
from_raw-IsWide r = omega arith

-- Unpacking is total. Packing an unpacked word gives it back, unless its middle byte names no
-- category: then the flags and the custom section are kept, and the middle byte becomes 255.
pub raw-from_raw :
    (r : ℕ)
    → r < 2 ^ 32
    → (raw (from_raw r) ≡ r)
      ⊎ ((4 < r / 2 ^ 16 % 2 ^ 8)
          × (raw (from_raw r) ≡ r / 2 ^ 24 * 2 ^ 24 + 255 * 2 ^ 16 + r % 2 ^ 16))
raw-from_raw r h =
    let sum = raw-eq-sum (from_raw r) (from_raw-IsWide r) in
    unfold from_raw in
    elim (to_byte-from_byte (r / 2 ^ 16 % 2 ^ 8)) [
      | inl kept ↦ inl (sum ∙ omega arith)
      | inr (unknown, top) ↦ inr (unknown, sum ∙ omega arith)
    ]
