-- ===== src/Bloom/Members.antt =====
-- No false negatives: what was added to a `Bloom`, it has (crates/muka-store/src/lib.rs).
use muka_ai_trim.Common.{
  ℕ, zero, suc, ◌+◌, ◌*◌, ◌/◌, ◌%◌, ◌≤◌, ◌<◌, ◌≡◌, refl, ap, ◌∙◌, subst, arith, max, true, false,
  ◌&&◌, ltb, leb, ◌==◌, Option, none, some, List, [], ◌∷◌, length, All, Bool-cases, inl, inr,
  bytes_eq, bytes_eq_iff,
}
use muka_ai_trim.Bloom.{
  Bloom, power_from, next_power_of_two, zeros, new_bloom, indices_loop, test_at, add_loop, all_set,
  indices, add, has, add_keys, bloom,
}
use muka_ai_trim.Bloom.Bits.{IsBitSet, or_at-IsBitSet}
use muka_ai_trim.Digest.{Digest}
use muka_ai_trim.Store
use muka_ai_trim.Store.{Inner, Entry, Entries, find_entry}

-- A filter whose words hold exactly its bits.
pub record IsBloom (b : Bloom) : Type 0 where
  pub some_bits : 0 < b.m_bits
  pub in_words : 64 * length b.words ≡ b.m_bits

abbrev Has : List ℕ → ℕ → Type 0
Has ws i = test_at ws (i / 64) (i % 64) ≡ some true

indices_loop-lt : (n i a c m : ℕ) → 0 < m → All (λ x. x < m) (indices_loop n i a c m)
unfolding indices_loop
indices_loop-lt zero i a c m h = tt
indices_loop-lt (suc n) i a c m h = (omega arith, indices_loop-lt n (i + 1) a c m h)

-- The words behind the loop of `add`.
record IsGrown (ws : List ℕ) (is : List ℕ) : Type 0 where
  after : List ℕ
  did : add_loop ws is ≡ some after
  same_length : length after ≡ length ws
  are_set : All (Has after) is
  keeps : (i : ℕ) → Has ws i → Has after i

add_loop-IsGrown : (is ws : List ℕ) → All (λ i. i < 64 * length ws) is → IsGrown ws is
unfolding add_loop
add_loop-IsGrown [] ws h = record {
  after = ws;
  did = refl;
  same_length = refl;
  are_set = tt;
  keeps = λ i e. e;
}
add_loop-IsGrown (i ∷ is) ws (h, hs) =
    let s : IsBitSet ws (i / 64) (i % 64) =
      or_at-IsBitSet ws (i / 64) (i % 64) (omega (arith, h)) in
    let g : IsGrown s.after is = add_loop-IsGrown is s.after (rw s.same_length hs) in
    record {
      after = g.after;
      did = rw (add_loop, s.did) g.did;
      same_length = g.same_length ∙ s.same_length;
      are_set = (g.keeps i s.is_set, g.are_set);
      keeps = λ j e. g.keeps j (s.keeps (j / 64) (j % 64) e);
    }

all_set_lem : (ws is : List ℕ) → All (Has ws) is → all_set ws is ≡ some true
unfolding all_set
all_set_lem ws [] h = refl
all_set_lem ws (i ∷ is) (h, hs) = rw (all_set, h) (all_set_lem ws is hs)

module _ (blake3 : List ℕ → List ℕ) where
  -- Every position of the digest is set.
  record Holds (b : Bloom) (d : Digest) : Type 0 where
    positions : List ℕ
    found : indices blake3 b d ≡ some positions
    are_set : All (Has b.words) positions

  Holds-has : (b : Bloom) (d : Digest) → Holds b d → has blake3 b d ≡ some true
  unfolding has
  Holds-has b d h = rw (has, h.found) (all_set_lem b.words h.positions h.are_set)

  record Added (d : Digest) (b : Bloom) : Type 0 where
    after : Bloom
    did : add blake3 d b ≡ some after
    is_bloom : IsBloom after
    holds : Holds after d
    keeps : (e : Digest) → Holds b e → Holds after e

  indices-some :
      (b : Bloom) (d : Digest)
      → IsBloom b
      → (is : List ℕ) × (indices blake3 b d ≡ some is) × All (λ i. i < 64 * length b.words) is
  unfolding indices
  indices-some b d h =
      let safe : ((b.m_bits == 0) && ltb 0 b.k) ≡ false = ground (arith, h.some_bits) in
      rw safe (_, refl, rw h.in_words (indices_loop-lt b.k 0 _ _ b.m_bits h.some_bits))

  -- The positions depend on the size of the filter only.
  indices-words :
      (b : Bloom) (words : List ℕ) (d : Digest)
      → indices blake3 (record b { words = words }) d ≡ indices blake3 b d
  unfolding indices
  indices-words b words d = refl

  add-Added : (d : Digest) (b : Bloom) → IsBloom b → Added d b
  unfolding add
  add-Added d b h =
      let (is, found, below) = indices-some b d h in
      let g : IsGrown b.words is = add_loop-IsGrown is b.words below in
      let b' : Bloom = record b { words = g.after } in
      record {
        after = b';
        did = rw (add, found, g.did) refl;
        is_bloom = record {
          some_bits = h.some_bits;
          in_words = ap (λ (t : ℕ). 64 * t) g.same_length ∙ h.in_words;
        };
        holds = record {
          positions = is;
          found = indices-words b g.after d ∙ found;
          are_set = g.are_set;
        };
        keeps = λ e k. record {
          positions = k.positions;
          found = indices-words b g.after e ∙ k.found;
          are_set = keep_all b.words g.after g.keeps k.positions k.are_set;
        };
      }
    where
      keep_all :
          (ws after : List ℕ)
          → ((i : ℕ) → Has ws i → Has after i)
          → (is : List ℕ) → All (Has ws) is
          → All (Has after) is
      keep_all ws after k [] h = tt
      keep_all ws after k (i ∷ is) (h, hs) = (k i h, keep_all ws after k is hs)

  -- The filter behind the keys of a map.
  record IsFilled (m : Entries) (b : Bloom) : Type 0 where
    after : Bloom
    did : add_keys blake3 m b ≡ some after
    keeps : (e : Digest) → Holds b e → Holds after e
    holds : (d : Digest) (e : Entry) → find_entry m d ≡ some e → Holds after d

  add_keys-IsFilled : (m : Entries) (b : Bloom) → IsBloom b → IsFilled m b
  unfolding add_keys find_entry
  add_keys-IsFilled [] b h = record { after = b; did = refl; keeps = λ e k. k; holds = λ d e q. cc }
  add_keys-IsFilled ((k, x) ∷ m) b h =
      let a : Added k b = add-Added k b h in
      let f : IsFilled m a.after = add_keys-IsFilled m a.after a.is_bloom in
      record {
        after = f.after;
        did = rw (add_keys, a.did) f.did;
        keeps = λ e q. f.keeps e (a.keeps e q);
        holds = λ d e q. elim (Bool-cases (bytes_eq k d)) [
          | inl same ↦
              let key : k ≡ d = (bytes_eq_iff k d).0 same in
              subst (Holds f.after) key (f.keeps k a.holds)
          | inr other ↦ f.holds d e (rw (find_entry, other) at q)
        ];
      }

power_from-whole :
    (fuel p n : ℕ) → 0 < p → p % 64 ≡ 0 → (0 < power_from fuel p n) × (power_from fuel p n % 64 ≡ 0)
unfolding power_from
power_from-whole zero p n h hp = (h, hp)
power_from-whole (suc fuel) p n h hp = elim (Bool-cases (leb n p)) [
  | inl stop ↦ rw stop (h, hp)
  | inr more ↦ rw more (power_from-whole fuel (2 * p) n (omega arith) (omega arith))
]

next_power_of_two-whole :
    (n : ℕ) → 640 ≤ n → (0 < next_power_of_two n) × (next_power_of_two n % 64 ≡ 0)
unfolding next_power_of_two power_from
next_power_of_two-whole n h =
    let a : leb n 1 ≡ false = ground arith in
    let b : leb n 2 ≡ false = ground arith in
    let c : leb n 4 ≡ false = ground arith in
    let d : leb n 8 ≡ false = ground arith in
    let e : leb n 16 ≡ false = ground arith in
    let f : leb n 32 ≡ false = ground arith in
    rw (a, b, c, d, e, f) (power_from-whole 57 64 n (omega arith) refl)

length-zeros : (n : ℕ) → length (zeros n) ≡ n
unfolding zeros
length-zeros zero = refl
length-zeros (suc n) = ap suc (length-zeros n)

pub new_bloom-IsBloom : (capacity k : ℕ) → IsBloom (new_bloom capacity k)
unfolding new_bloom
new_bloom-IsBloom capacity k =
    let bits = next_power_of_two (max capacity 64 * 10) in
    let w = next_power_of_two-whole (max capacity 64 * 10) (omega arith) in
    record { some_bits = w.0; in_words = omega (arith, length-zeros (bits / 64), w.1) }

-- The filter that a store sends is made without a panic, whatever blocks the store holds and
-- whatever the hash, and it has every digest that the store has: there are no false negatives.
pub bloom-has :
    (blake3 : List ℕ → List ℕ) (g : Inner)
    → (b : Bloom) × (bloom blake3 g ≡ some b)
      × ((d : Digest) → Store.has g d ≡ true → has blake3 b d ≡ some true)
unfolding bloom Store.has
bloom-has blake3 g =
    let start = new_bloom (max (length g.map) 1024) 6 in
    let f = add_keys-IsFilled blake3 g.map start (new_bloom-IsBloom _ _) in
    (f.after, f.did, λ d h. at_entry f (find_entry g.map d) d refl h)
  where
    at_entry :
        {start : Bloom} (f : IsFilled blake3 g.map start) (r : Option Entry) (d : Digest)
        → find_entry g.map d ≡ r
        → elim r [ none ↦ false | some e ↦ true ] ≡ true
        → has blake3 f.after d ≡ some true
    at_entry f none d q h = cc
    at_entry f (some e) d q h = Holds-has blake3 f.after d (f.holds d e q)
