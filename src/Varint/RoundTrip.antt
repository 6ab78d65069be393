-- ===== src/Varint/RoundTrip.antt =====
-- `uvarint` behind `write_uvarint` (crates/muka-proto/src/varint.rs).
use muka_ai_trim.Common.{
  ℕ, zero, suc, ◌+◌, ◌*◌, ◌/◌, ◌%◌, ◌^◌, ◌≤◌, ◌<◌, ◌≡◌, ap, ◌∙◌, arith, List, [], ◌∷◌, ◌++◌, length,
  append_assoc, length-append, drop-append, ok, true, false, ltb, IsU64, Bool-cases, inl, inr,
  ltb→lt, ltb→ge, get_elem?-drop, bit_set,
}
use muka_ai_trim.Varint.{
  Reader, advance, add_group, uvarint_loop, uvarint, write_loop, write_uvarint,
}
use muka_ai_trim.Varint.Writing.{varint, write_uvarint-varint, write_loop_last, write_loop_inner}
use muka_ai_trim.Varint.Reading.{unread, unread-advance, advance-advance, Reads}
use native.Mathlib.Nat.{div-add-mod}
use native.Mathlib.Numerals.{towards_suc}

pub add_group_lem :
    (i out b : ℕ)
    → i ≤ 9
    → IsU64 (out + b % 128 * 2 ^ (7 * i))
    → add_group i out b ≡ ok (out + b % 128 * 2 ^ (7 * i))
unfolding add_group
add_group_lem i out b hi fits = ground arith

module _ (k i out b : ℕ) (r : Reader) (ys : List ℕ) (hi : i ≤ 9)
    (fits : IsU64 (out + b % 128 * 2 ^ (7 * i))) (e : unread r ≡ b ∷ ys) where
  -- A byte below 128 ends the number, and a byte from 128 on adds its low bits.
  last_byte : b < 128 → uvarint_loop (suc k) i out r ≡ ok (out + b % 128 * 2 ^ (7 * i), advance r 1)
  unfolding uvarint_loop
  last_byte hb =
      let low : bit_set b 7 ≡ false = ground arith in
      rw (get_elem?-drop r.buf r.pos b ys e, add_group_lem i out b hi fits, low)

  inner_byte :
      128 ≤ b
      → b < 256
      → uvarint_loop (suc k) i out r
        ≡ uvarint_loop k (i + 1) (out + b % 128 * 2 ^ (7 * i)) (advance r 1)
  unfolding uvarint_loop
  inner_byte hb hb' =
      let high : bit_set b 7 ≡ true = ground arith in
      rw (get_elem?-drop r.buf r.pos b ys e, add_group_lem i out b hi fits, high)

pub shift_seven : (i : ℕ) → 2 ^ (7 * (i + 1)) ≡ 128 * 2 ^ (7 * i)
shift_seven i =
    let e : 7 * (i + 1) ≡ 7 * i + 7 = omega arith in rw e (simp towards_suc (omega arith))

split_group : (v i : ℕ) → v * 2 ^ (7 * i) ≡ v % 128 * 2 ^ (7 * i) + v / 128 * 2 ^ (7 * (i + 1))
split_group v i = omega (
  arith,
  ap (λ (t : ℕ). t * 2 ^ (7 * i)) (div-add-mod v 128),
  ap (λ (t : ℕ). v / 128 * t) (shift_seven i),
)

-- The last byte of an encoding.
write_loop_ends :
    (k i out v : ℕ)
    → v < 128
    → i ≤ 9
    → IsU64 (out + v * 2 ^ (7 * i))
    → Reads (uvarint_loop (suc k) i out) (write_loop (suc k) v) (out + v * 2 ^ (7 * i))
write_loop_ends k i out v small hi fits = record {
  run = λ r ys e.
      let m : v % 128 ≡ v = omega arith in
      let shape = write_loop_last k v small in
      rw shape (
        last_byte k i out v r ys hi (rw m fits) (rw shape at e) small
        ∙ ap (λ (t : ℕ). ok (out + t * 2 ^ (7 * i), advance r 1)) m);
}

-- A byte with the top bit set over the group `g`, and then the rest of the number.
pub Reads-inner :
    (k i out g : ℕ) (tail : List ℕ) (v : ℕ)
    → g < 128
    → i ≤ 9
    → IsU64 (out + g * 2 ^ (7 * i))
    → Reads (uvarint_loop k (i + 1) (out + g * 2 ^ (7 * i))) tail v
    → Reads (uvarint_loop (suc k) i out) ((g + 128) ∷ tail) v
Reads-inner k i out g tail v hg hi fits h = record {
  run = λ r ys e.
      let low : (g + 128) % 128 ≡ g = omega arith in
      let step =
        inner_byte k i out (g + 128) r (tail ++ ys) hi (rw low fits) e (omega arith)
          (omega arith) in
      (rw low at step)
      ∙ h.run (advance r 1) ys (unread-advance r ((g + 128) ∷ []) (tail ++ ys) e)
      ∙ ap (λ (t : Reader). ok (v, t))
          (advance-advance r 1 (length tail) (suc (length tail)) (omega arith));
}

-- `v` is what is still to be written, and counts from bit `7 * i` on.
uvarint_loop-write_loop :
    (k i out v : ℕ)
    → v < 128 ^ suc k
    → i + k ≤ 9
    → IsU64 (out + v * 2 ^ (7 * i))
    → Reads (uvarint_loop (suc k) i out) (write_loop (suc k) v) (out + v * 2 ^ (7 * i))
uvarint_loop-write_loop zero i out v hv hi fits =
    write_loop_ends zero i out v (omega arith) (omega arith) fits
uvarint_loop-write_loop (suc k) i out v hv hi fits = elim (Bool-cases (ltb v 128)) [
  | inl lt ↦ write_loop_ends (suc k) i out v (ltb→lt v 128 lt) (omega arith) fits
  | inr ge ↦
      let big : 128 ≤ v = ltb→ge v 128 ge in
      let split = split_group v i in
      let out' = out + v % 128 * 2 ^ (7 * i) in
      let fits' : IsU64 (out' + v / 128 * 2 ^ (7 * (i + 1))) = omega arith in
      let whole : out' + v / 128 * 2 ^ (7 * (i + 1)) ≡ out + v * 2 ^ (7 * i) = omega arith in
      rw (write_loop_inner (suc k) v big, ← whole)
        (Reads-inner (suc k) i out (v % 128) (write_loop (suc k) (v / 128)) _ (omega arith)
          (omega arith) (omega arith)
          (uvarint_loop-write_loop k (i + 1) out' (v / 128) (omega arith) (omega arith) fits'))
]

pub uvarint-varint : (v : ℕ) → IsU64 v → Reads uvarint (varint v) v
unfolding uvarint varint
uvarint-varint v h =
    let whole : 0 + v * 2 ^ (7 * 0) ≡ v = omega arith in
    rw whole at (uvarint_loop-write_loop 9 0 0 v (omega arith) (omega arith) (omega arith))

-- `uvarint` reads back the value that `write_uvarint` appended to any buffer, stands behind it
-- and leaves whatever follows unread.
pub uvarint-write_uvarint :
    (before after : List ℕ) (v : ℕ)
    → IsU64 v
    → uvarint (record { buf = write_uvarint before v ++ after; pos = length before })
      ≡ ok (
        v,
        record { buf = write_uvarint before v ++ after; pos = length (write_uvarint before v) },
      )
uvarint-write_uvarint before after v h =
    rw (write_uvarint-varint before v, append_assoc, length-append)
      ((uvarint-varint v h).run _ after (drop-append before (varint v ++ after)))
