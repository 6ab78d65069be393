-- ===== src/Varint/Writing.antt =====
-- The shape of what `write_uvarint` appends.
use muka_ai_trim.Common.{
  ℕ, zero, suc, ◌+◌, ◌%◌, ◌/◌, ◌^◌, ◌≤◌, ◌<◌, ◌≡◌, refl, arith, List, [], ◌∷◌, ◌++◌, length, All,
  IsU64, IsByte, Bool-cases, ltb, ltb→lt, ltb→ge, inl, inr,
}
use muka_ai_trim.Varint.{write_loop, write_uvarint}

-- The bytes that `write_uvarint` appends.
unfoldable pub varint : ℕ → List ℕ
varint = write_loop 10

pub write_uvarint-varint : (buf : List ℕ) (v : ℕ) → write_uvarint buf v ≡ buf ++ varint v
unfolding write_uvarint varint
write_uvarint-varint buf v = refl

pub write_loop_last : (k v : ℕ) → v < 128 → write_loop (suc k) v ≡ v ∷ []
unfolding write_loop
write_loop_last k v h = ground arith

pub write_loop_inner :
    (k v : ℕ) → 128 ≤ v → write_loop (suc k) v ≡ (v % 128 + 128) ∷ write_loop k (v / 128)
unfolding write_loop
write_loop_inner k v h = ground arith

write_loop_shape :
    (k v : ℕ)
    → v < 128 ^ suc k
    → All IsByte (write_loop (suc k) v)
      × (1 ≤ length (write_loop (suc k) v))
      × (length (write_loop (suc k) v) ≤ suc k)
write_loop_shape zero v h = rw (write_loop_last zero v (omega arith)) (omega arith)
write_loop_shape (suc k) v h = elim (Bool-cases (ltb v 128)) [
  | inl lt ↦ let small = ltb→lt v 128 lt in rw (write_loop_last (suc k) v small) (omega arith)
  | inr ge ↦
      let big = ltb→ge v 128 ge in
      let (a, b, c) = write_loop_shape k (v / 128) (omega arith) in
      rw (write_loop_inner (suc k) v big) ((omega arith, a), omega arith, omega arith)
]

-- A `u64` is written as one to ten bytes.
pub varint_shape :
    (v : ℕ) → IsU64 v → All IsByte (varint v) × (1 ≤ length (varint v)) × (length (varint v) ≤ 10)
unfolding varint
varint_shape v h = write_loop_shape 9 v (omega arith)
