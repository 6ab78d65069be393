-- ===== src/Digest/Hex.antt =====
-- The hexadecimal text of a digest and the byte of a kind (crates/muka-split/src/digest.rs).
use muka_ai_trim.Common.{
  ℕ, ◌+◌, ◌*◌, ◌/◌, ◌%◌, ◌<◌, ◌≡◌, refl, arith, some, [], ◌∷◌, length, All, IsByte, ◌==◌, true,
}
use muka_ai_trim.Digest.{
  Digest, digest_len, BlockKind, raw, to_u8, from_u8, hex_b, hex_v, serialize, hex_pairs,
  deserialize,
}

hex_v-hex_b : (n : ℕ) → n < 16 → hex_v (hex_b n) ≡ some n
unfolding hex_v hex_b
hex_v-hex_b n h = ground arith

length-serialize : (d : Digest) → length (serialize d) ≡ length d * 2
unfolding serialize
length-serialize [] = refl
length-serialize (b ∷ bs) = omega (arith, length-serialize bs)

hex_pairs-serialize : (d : Digest) → All IsByte d → hex_pairs (serialize d) ≡ some d
unfolding hex_pairs serialize
hex_pairs-serialize [] h = refl
hex_pairs-serialize (b ∷ bs) (hb, hs) =
    let whole : b / 16 * 16 + b % 16 ≡ b = omega arith in
    rw (
      hex_v-hex_b (b / 16) (omega arith),
      hex_v-hex_b (b % 16) (omega arith),
      hex_pairs-serialize bs hs,
      whole,
    )

-- Sixteen bytes, written as hexadecimal text and parsed, are the same digest.
deserialize-serialize :
    (d : Digest) → length d ≡ digest_len → All IsByte d → deserialize (serialize d) ≡ some d
unfolding deserialize
deserialize-serialize d n h =
    let full : (length (serialize d) == digest_len * 2) ≡ true =
      ground (arith, length-serialize d) in
    rw (full, hex_pairs-serialize d h)

pub from_u8-to_u8 : (k : BlockKind) → from_u8 (to_u8 k) ≡ some k
unfolding from_u8 to_u8
from_u8-to_u8 raw = refl
from_u8-to_u8 k = refl

-- The kind byte never collides with the mark of a program block.
pub to_u8-lt : (k : BlockKind) → to_u8 k < 5
unfolding to_u8
to_u8-lt raw = omega arith
to_u8-lt k = omega arith
