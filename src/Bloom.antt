-- ===== src/Bloom.antt =====
-- The `Bloom` filter of crates/muka-store/src/lib.rs, `Store::bloom`, and the message that carries it
-- (crates/muka-proto/src/msg.rs). `none` is a panic: an index out of range or a remainder by zero.
pub mod Bits
pub mod Members
pub mod Wire
use muka_ai_trim.Common.{
  ℕ, zero, suc, ◌+◌, ◌*◌, ◌/◌, ◌%◌, ◌^◌, Bool, true, false, not, ◌||◌, Option, none, some, List, [],
  ◌∷◌, ◌++◌, ◌-◌, ◌&&◌, ltb, leb, ◌==◌, if◌then◌else◌, length, take, drop, min, max, u64_mod,
  Result, ok, err,
}
use muka_ai_trim.Common.Outcome
use muka_ai_trim.Codec.Decoding.{Error, codec, Decode, ◌>>=◌, pure, lift}
use muka_ai_trim.Digest.{Digest, le_bytes, of_le_bytes, codes}
use muka_ai_trim.Store.{Inner, Entries}
use muka_ai_trim.Varint.{Reader, bad, new, write_uvarint, uvarint, rest}

pub record Bloom : Type 0 where
  pub m_bits : ℕ
  pub k : ℕ
  pub words : List ℕ

-- `usize::next_power_of_two`, from the power `p` on.
unfoldable pub power_from : ℕ → ℕ → ℕ → ℕ
power_from zero p n = p
power_from (suc fuel) p n = let more = power_from fuel (2 * p) n in if leb n p then p else more

unfoldable pub next_power_of_two : ℕ → ℕ
next_power_of_two n = power_from 63 1 n

unfoldable pub zeros : ℕ → List ℕ
zeros zero = []
zeros (suc n) = 0 ∷ zeros n

unfoldable pub new_bloom : ℕ → ℕ → Bloom
new_bloom capacity k =
    let bits : ℕ = next_power_of_two (max capacity 64 * 10) in
    record { m_bits = bits; k = min (max k 1) 12; words = zeros (bits / 64) }

unfoldable pub empty_bloom : Bloom
empty_bloom = new_bloom 64 6

-- `w | 1 << j`
unfoldable pub or_bit : ℕ → ℕ → ℕ
or_bit zero w = if w % 2 == 1 then w else w + 1
or_bit (suc j) w = w % 2 + 2 * or_bit j (w / 2)

-- `w & (1 << j) != 0`
unfoldable pub bit_at : ℕ → ℕ → Bool
bit_at zero w = w % 2 == 1
bit_at (suc j) w = bit_at j (w / 2)

-- `words[n] |= 1 << j`
unfoldable pub or_at : List ℕ → ℕ → ℕ → Option (List ℕ)
or_at [] n j = none
or_at (w ∷ ws) zero j = some (or_bit j w ∷ ws)
or_at (w ∷ ws) (suc n) j = elim (or_at ws n j) [ none ↦ none | some ws' ↦ some (w ∷ ws') ]

-- `words[n] & (1 << j) != 0`
unfoldable pub test_at : List ℕ → ℕ → ℕ → Option Bool
test_at [] n j = none
test_at (w ∷ ws) zero j = some (bit_at j w)
test_at (w ∷ ws) (suc n) j = test_at ws n j

-- The remaining rounds, the round's number, the two halves of the hash.
unfoldable pub indices_loop : ℕ → ℕ → ℕ → ℕ → ℕ → List ℕ
indices_loop zero i a c m = []
indices_loop (suc n) i a c m =
    ((a + c * (i + 1) % u64_mod) % u64_mod) % m ∷ indices_loop n (i + 1) a c m

unfoldable pub add_loop : List ℕ → List ℕ → Option (List ℕ)
add_loop words [] = some words
add_loop words (i ∷ is) = elim (or_at words (i / 64) (i % 64)) [
  | none ↦ none
  | some words' ↦ add_loop words' is
]

unfoldable pub all_set : List ℕ → List ℕ → Option Bool
all_set words [] = some true
all_set words (i ∷ is) = elim (test_at words (i / 64) (i % 64)) [
  | none ↦ none
  | some true ↦ all_set words is
  | some false ↦ some false
]

module _ (blake3 : List ℕ → List ℕ) where
  -- `% self.m_bits` panics on zero, in the first of `k` rounds.
  unfoldable pub indices : Bloom → Digest → Option (List ℕ)
  indices b d =
      let h = blake3 (codes "MUKA-BLOOM-1" ++ d) in
      let a : ℕ = of_le_bytes (take 8 h) in
      let c : ℕ = of_le_bytes (take 8 (drop 8 h)) in
      if (b.m_bits == 0) && ltb 0 b.k then none else some (indices_loop b.k 0 a c b.m_bits)

  unfoldable pub add : Digest → Bloom → Option Bloom
  add d b = elim (indices b d) [
    | none ↦ none
    | some is ↦ elim (add_loop b.words is) [
      | none ↦ none
      | some words ↦ some (record b { words = words })
    ]
  ]

  unfoldable pub has : Bloom → Digest → Option Bool
  has b d = elim (indices b d) [ none ↦ none | some is ↦ all_set b.words is ]

  -- The keys of a store's map, in whatever order.
  unfoldable pub add_keys : Entries → Bloom → Option Bloom
  add_keys [] b = some b
  add_keys ((d, e) ∷ m) b = elim (add d b) [ none ↦ none | some b' ↦ add_keys m b' ]

  unfoldable pub bloom : Inner → Option Bloom
  bloom g = add_keys g.map (new_bloom (max (length g.map) 1024) 6)

unfoldable pub words_bytes : List ℕ → List ℕ
words_bytes [] = []
words_bytes (w ∷ ws) = le_bytes 8 w ++ words_bytes ws

unfoldable pub to_bytes : Bloom → List ℕ
to_bytes b = le_bytes 8 b.m_bits ++ (le_bytes 8 b.k ++ words_bytes b.words)

-- `chunks_exact(8)`: bytes too few for a word are dropped. There are `n` whole words.
unfoldable pub bytes_words : ℕ → List ℕ → List ℕ
bytes_words zero raw = []
bytes_words (suc n) raw = of_le_bytes (take 8 raw) ∷ bytes_words n (drop 8 raw)

-- `1 << 26`
abbrev pub max_bits : ℕ
max_bits = 67_108_864

unfoldable pub from_bytes : List ℕ → Option Bloom
from_bytes raw =
    let m_bits : ℕ = of_le_bytes (take 8 raw) in
    let k : ℕ = of_le_bytes (take 8 (drop 8 raw)) in
    let words : List ℕ = bytes_words ((length raw - 16) / 8) (drop 16 raw) in
    if ltb (length raw) 16
    then none
    else if not (m_bits % 64 == 0)
        || (not (m_bits / 64 == length words) || (ltb max_bits m_bits || (k == 0)))
    then none
    else some (record { m_bits = m_bits; k = k; words = words })

unfoldable pub encode_bloom : ℕ → ℕ → Bloom → List ℕ
encode_bloom epoch blocks b = write_uvarint (write_uvarint [] epoch) blocks ++ to_bytes b

-- `from_bytes(..).ok_or(..)`
unfoldable pub bloom_or_bad : List ℕ → Result Error Bloom
bloom_or_bad raw = elim (from_bytes raw) [ none ↦ err (codec (bad "bad bloom")) | some b ↦ ok b ]

unfoldable pub bloom_counts : Decode (ℕ × ℕ)
bloom_counts = do epoch ← lift uvarint; blocks ← lift uvarint; pure (epoch, blocks)

unfoldable pub decode_bloom : List ℕ → Result Error (ℕ × (ℕ × Bloom))
decode_bloom raw =
    Outcome.◌>>=◌ (bloom_counts (new raw))
      (λ q. Outcome.◌>>=◌ (bloom_or_bad (rest q.1).0) (λ b. ok (q.0.0, (q.0.1, b))))
