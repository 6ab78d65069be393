-- ===== src/Bloom/Wire.antt =====
-- `Bloom::from_bytes` behind `to_bytes` (crates/muka-store/src/lib.rs), and `decode_bloom` behind
-- `encode_bloom` (crates/muka-proto/src/msg.rs).
use muka_ai_trim.Common.{
  ℕ, zero, suc, ◌+◌, ◌-◌, ◌*◌, ◌/◌, ◌%◌, ◌^◌, ◌≤◌, ◌<◌, ◌≡◌, refl, sym, ap, ◌∙◌, arith, false, not,
  ◌||◌, ltb, ◌==◌, drop-drop, ge→ltb, some, List, [], ◌∷◌, ◌++◌, append-nil, append_assoc, length,
  length-append, take, drop, take-append, drop-append, ok, IsU64, All,
}
use muka_ai_trim.Bloom.{
  Bloom, words_bytes, to_bytes, bytes_words, max_bits, from_bytes, encode_bloom, bloom_counts,
  bloom_or_bad, decode_bloom,
}
use muka_ai_trim.Bloom.Members.{IsBloom}
use muka_ai_trim.Codec.Decoding.{Reads-pure, Reads-lift, Reads-then}
use muka_ai_trim.Digest.{le_bytes, of_le_bytes}
use muka_ai_trim.Varint.{Reader, new, rest}
use muka_ai_trim.Varint.Reading.{Reads, unread, unread-advance}
use muka_ai_trim.Varint.RoundTrip.{uvarint-varint}
use muka_ai_trim.Varint.Writing.{varint, write_uvarint-varint}

length-le_bytes : (n v : ℕ) → length (le_bytes n v) ≡ n
unfolding le_bytes
length-le_bytes zero v = refl
length-le_bytes (suc n) v = ap suc (length-le_bytes n (v / 2 ^ 8))

le_bytes-step : (n v : ℕ) → v < 256 * n → v / 256 < n
le_bytes-step n v h = omega arith

of_le_bytes-le_bytes : (v : ℕ) → IsU64 v → of_le_bytes (le_bytes 8 v) ≡ v
unfolding of_le_bytes le_bytes
of_le_bytes-le_bytes v h = omega arith

module _ (v : ℕ) (h : IsU64 v) (more : List ℕ) where
  first_word : of_le_bytes (take 8 (le_bytes 8 v ++ more)) ≡ v
  first_word =
      ap of_le_bytes (rw (length-le_bytes 8 v) at (take-append (le_bytes 8 v) more))
      ∙ of_le_bytes-le_bytes v h

drop_word : (v : ℕ) (more : List ℕ) → drop 8 (le_bytes 8 v ++ more) ≡ more
drop_word v more = rw (length-le_bytes 8 v) at (drop-append (le_bytes 8 v) more)

length-words_bytes : (ws : List ℕ) → length (words_bytes ws) ≡ length ws * 8
unfolding words_bytes
length-words_bytes [] = refl
length-words_bytes (w ∷ ws) = omega (
  arith,
  length-append (le_bytes 8 w) (words_bytes ws),
  length-le_bytes 8 w,
  length-words_bytes ws,
)

bytes_words-words_bytes :
    (ws : List ℕ) → All IsU64 ws → bytes_words (length ws) (words_bytes ws) ≡ ws
unfolding bytes_words words_bytes
bytes_words-words_bytes [] h = refl
bytes_words-words_bytes (w ∷ ws) (h, hs) =
    rw
      (first_word w h (words_bytes ws), drop_word w (words_bytes ws), bytes_words-words_bytes ws hs)
      refl

-- A filter that the other end accepts.
pub record IsSendable (b : Bloom) : Type 0 where
  pub is_bloom : IsBloom b
  pub fits : b.m_bits ≤ max_bits
  pub some_hashes : 0 < b.k
  pub k_u64 : IsU64 b.k
  pub words_u64 : All IsU64 b.words

-- `from_bytes` reads back a filter from its bytes, if its words hold exactly its bits, it has at
-- most 2^26 bits and at least one hash.
pub from_bytes-to_bytes : (b : Bloom) → IsSendable b → from_bytes (to_bytes b) ≡ some b
unfolding from_bytes to_bytes
from_bytes-to_bytes b s =
    let raw = to_bytes b in
    let tail : List ℕ = le_bytes 8 b.k ++ words_bytes b.words in
    let m_u64 : IsU64 b.m_bits = omega (arith, s.fits) in
    let len : length raw ≡ 16 + length b.words * 8 = omega (
      arith,
      length-append (le_bytes 8 b.m_bits) tail,
      length-append (le_bytes 8 b.k) (words_bytes b.words),
      length-le_bytes 8 b.m_bits,
      length-le_bytes 8 b.k,
      length-words_bytes b.words,
    ) in
    let count : (length raw - 16) / 8 ≡ length b.words = omega arith in
    let enough : ltb (length raw) 16 ≡ false = ge→ltb _ _ (omega arith) in
    let behind : drop 16 raw ≡ words_bytes b.words =
      sym (drop-drop 8 8 raw)
      ∙ ap (drop 8) (drop_word b.m_bits tail)
      ∙ drop_word b.k (words_bytes b.words) in
    let fine : (not (b.m_bits % 64 == 0)
          || (not (b.m_bits / 64 == length b.words) || (ltb max_bits b.m_bits || (b.k == 0))))
        ≡ false =
      ground (arith, s.is_bloom.in_words, s.fits, s.some_hashes) in
    rw
      (
        enough,
        count,
        behind,
        first_word b.m_bits m_u64 tail,
        drop_word b.m_bits tail,
        first_word b.k s.k_u64 (words_bytes b.words),
        bytes_words-words_bytes b.words s.words_u64,
        fine,
      )
      refl

bloom_counts-Reads :
    (epoch blocks : ℕ)
    → IsU64 epoch
    → IsU64 blocks
    → Reads bloom_counts (varint epoch ++ (varint blocks ++ [])) (epoch, blocks)
unfolding bloom_counts
bloom_counts-Reads epoch blocks he hb =
    Reads-then _ (Reads-lift (uvarint-varint epoch he))
      (Reads-then _ (Reads-lift (uvarint-varint blocks hb)) (Reads-pure _))

encode_bloom-shape :
    (epoch blocks : ℕ) (b : Bloom)
    → encode_bloom epoch blocks b ≡ (varint epoch ++ (varint blocks ++ [])) ++ to_bytes b
unfolding encode_bloom
encode_bloom-shape epoch blocks b = simp (write_uvarint-varint, append_assoc, append-nil)

-- `decode_bloom` reads back the epoch, the count and the filter that `encode_bloom` wrote, if the
-- numbers are `u64`, the filter's words hold exactly its bits, and it has at most 2^26 bits and at
-- least one hash.
pub decode_bloom-encode_bloom :
    (epoch blocks : ℕ) (b : Bloom)
    → IsU64 epoch
    → IsU64 blocks
    → IsSendable b
    → decode_bloom (encode_bloom epoch blocks b) ≡ ok (epoch, (blocks, b))
unfolding decode_bloom new rest bloom_or_bad
decode_bloom-encode_bloom epoch blocks b he hb s =
    let head : List ℕ = varint epoch ++ (varint blocks ++ []) in
    let raw = encode_bloom epoch blocks b in
    let r : Reader = record { buf = raw; pos = 0 } in
    let shape : unread r ≡ head ++ to_bytes b = encode_bloom-shape epoch blocks b in
    let step = (bloom_counts-Reads epoch blocks he hb).run r (to_bytes b) shape in
    rw (step, unread-advance r head (to_bytes b) shape, bloom_or_bad, from_bytes-to_bytes b s) refl
