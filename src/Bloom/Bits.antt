-- ===== src/Bloom/Bits.antt =====
-- The bits of a word and of a row of words: setting one keeps the others
-- (`Bloom` of crates/muka-store/src/lib.rs).
use muka_ai_trim.Common.{
  ℕ, zero, suc, ◌+◌, ◌*◌, ◌/◌, ◌%◌, ◌<◌, ◌≡◌, refl, ap, arith, true, ◌==◌, some, List, [], ◌∷◌,
  length, Bool-cases, inl, inr,
}
use muka_ai_trim.Bloom.{or_bit, bit_at, or_at, test_at}

or_bit-low : (j w : ℕ) → (w % 2 + 2 * or_bit j (w / 2)) % 2 ≡ w % 2
or_bit-low j w = omega arith

or_bit-high : (j w : ℕ) → (w % 2 + 2 * or_bit j (w / 2)) / 2 ≡ or_bit j (w / 2)
or_bit-high j w = omega arith

bit_at-or_bit : (j w : ℕ) → bit_at j (or_bit j w) ≡ true
unfolding bit_at or_bit
bit_at-or_bit zero w = ground arith
bit_at-or_bit (suc j) w = rw (or_bit-high j w) (bit_at-or_bit j (w / 2))

or_bit-keeps : (j w i : ℕ) → bit_at i w ≡ true → bit_at i (or_bit j w) ≡ true
unfolding bit_at or_bit
or_bit-keeps zero w zero h = ground arith
or_bit-keeps zero w (suc i) h = elim (Bool-cases (w % 2 == 1)) [
  | inl set ↦ rw set h
  | inr clear ↦ let same : (w + 1) / 2 ≡ w / 2 = ground arith in rw (clear, same) h
]
or_bit-keeps (suc j) w zero h = rw (or_bit-low j w) h
or_bit-keeps (suc j) w (suc i) h = rw (or_bit-high j w) (or_bit-keeps j (w / 2) i h)

-- The words behind `words[n] |= 1 << j`.
pub record IsBitSet (ws : List ℕ) (n j : ℕ) : Type 0 where
  pub after : List ℕ
  pub did : or_at ws n j ≡ some after
  pub same_length : length after ≡ length ws
  pub is_set : test_at after n j ≡ some true
  pub keeps : (n' j' : ℕ) → test_at ws n' j' ≡ some true → test_at after n' j' ≡ some true

some-eq : {A : Type 0} {a b : A} → some a ≡ some b → a ≡ b
some-eq h = cc

pub or_at-IsBitSet : (ws : List ℕ) (n j : ℕ) → n < length ws → IsBitSet ws n j
unfolding or_at test_at
or_at-IsBitSet [] n j h = absurd (omega arith)
or_at-IsBitSet (w ∷ ws) zero j h = record {
  after = or_bit j w ∷ ws;
  did = refl;
  same_length = refl;
  is_set = ap some (bit_at-or_bit j w);
  keeps = kept;
}
  where
    kept :
        (n' j' : ℕ)
        → test_at (w ∷ ws) n' j' ≡ some true
        → test_at (or_bit j w ∷ ws) n' j' ≡ some true
    kept zero j' e = ap some (or_bit-keeps j w j' (some-eq e))
    kept (suc n') j' e = e
or_at-IsBitSet (w ∷ ws) (suc n) j h =
    let r : IsBitSet ws n j = or_at-IsBitSet ws n j (omega (arith, h)) in
    record {
      after = w ∷ r.after;
      did = rw r.did refl;
      same_length = ap suc r.same_length;
      is_set = r.is_set;
      keeps = kept r.after r.keeps;
    }
  where
    kept :
        (after : List ℕ)
        → ((n' j' : ℕ) → test_at ws n' j' ≡ some true → test_at after n' j' ≡ some true)
        → (n' j' : ℕ) → test_at (w ∷ ws) n' j' ≡ some true
        → test_at (w ∷ after) n' j' ≡ some true
    kept after h zero j' e = e
    kept after h (suc n') j' e = h n' j' e
