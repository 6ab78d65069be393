-- ===== src/Chunks/Tiling.antt =====
-- Where the chunks of crates/muka-split/src/cdc.rs lie.
use muka_ai_trim.Common.{
  ℕ, suc, ◌+◌, ◌-◌, ◌≤◌, ◌<◌, ◌≡◌, refl, arith, Bool, true, false, List, [], ◌∷◌, length,
  length-take, length-drop, ltb, ltb→lt, ltb→ge, Bool-cases, inl, inr, subst, max, drop,
}
use muka_ai_trim.Digest.{gear_at}
use muka_ai_trim.Json.{Span, slice, IsInside}
use muka_ai_trim.Policy.{Cand}
use muka_ai_trim.Chunks.{chunk_cand, roll, cuts, chunk_loop, cdc_candidates}

-- The candidates lie end to end from `start` to `end`, none empty; all but the last are at least
-- `floor` long, and no longer than both bounds allow.
unfoldable pub Tiles : ℕ → ℕ → ℕ → ℕ → List Cand → Type 0
Tiles floor ceiling start end [] = start ≡ end
Tiles floor ceiling start end (c ∷ []) =
    (c.span.start ≡ start)
    × (start < c.span.end)
    × (c.span.end ≡ end)
    × (end - start ≤ max 1 (max floor ceiling))
Tiles floor ceiling start end (c ∷ d ∷ cs) =
    (c.span.start ≡ start)
    × (start < c.span.end)
    × (floor ≤ c.span.end - start)
    × (c.span.end - start ≤ max 1 (max floor ceiling))
    × Tiles floor ceiling c.span.end end (d ∷ cs)

module _ (gear : ℕ → ℕ) (floor ceiling bits : ℕ) where
  cuts-le : (h n : ℕ) → cuts gear floor ceiling bits h n ≡ true → floor ≤ n
  unfolding cuts
  cuts-le h n e = ground (arith, e)

  cuts-lt : (h n : ℕ) → cuts gear floor ceiling bits h n ≡ false → n < max floor ceiling
  unfolding cuts
  cuts-lt h n e = ground (arith, e)

  Tiles-cons :
      (start mid end : ℕ) (cs : List Cand)
      → start < mid
      → floor ≤ mid - start
      → mid - start ≤ max 1 (max floor ceiling)
      → Tiles floor ceiling mid end cs
      → Tiles floor ceiling start end (chunk_cand gear floor ceiling bits start mid ∷ cs)
  unfolding Tiles
  Tiles-cons start mid end [] a b c h = (refl, a, h, omega (arith, c, h))
  Tiles-cons start mid end (d ∷ cs) a b c h = (refl, a, b, c, h)

  chunk_loop-Tiles :
      (bs : List ℕ) (start h i : ℕ)
      → start ≤ i
      → i - start ≤ max floor ceiling - 1
      → Tiles floor ceiling start (i + length bs) (chunk_loop gear floor ceiling bits bs start h i)
  unfolding chunk_loop Tiles
  chunk_loop-Tiles [] start h i le short = elim (Bool-cases (ltb start i)) [
    | inl more ↦
        rw more (refl, omega (arith, ltb→lt start i more), omega arith, omega (arith, short))
    | inr none_left ↦ rw none_left (omega (arith, ltb→ge start i none_left, le))
  ]
  chunk_loop-Tiles (b ∷ bs) start h i le short =
      at_cut (cuts gear floor ceiling bits h' n) refl
        (chunk_loop-Tiles bs (i + 1) h' (i + 1) (omega arith) (omega arith))
        (λ later. chunk_loop-Tiles bs start h' (i + 1) (omega (arith, le)) later)
    where
      h' : ℕ
      h' = roll gear floor ceiling bits h b

      n : ℕ
      n = i + 1 - start

      at_cut :
          (t : Bool)
          → cuts gear floor ceiling bits h' n ≡ t
          → Tiles floor ceiling
              (i + 1)
              (i + 1 + length bs)
              (chunk_loop gear floor ceiling bits bs (i + 1) h' (i + 1))
          → (i + 1 - start ≤ max floor ceiling - 1
              → Tiles floor ceiling start
                  (i + 1 + length bs)
                  (chunk_loop gear floor ceiling bits bs start h' (i + 1)))
          → Tiles floor ceiling start (i + suc (length bs)) (elim t [
            | true ↦
                chunk_cand gear floor ceiling bits start (i + 1)
                ∷ chunk_loop gear floor ceiling bits bs (i + 1) h' (i + 1)
            | false ↦ chunk_loop gear floor ceiling bits bs start h' (i + 1)
          ])
      at_cut true cut next on =
          let same : i + 1 + length bs ≡ i + suc (length bs) = omega arith in
          Tiles-cons start (i + 1) (i + suc (length bs)) _ (omega (arith, le)) (cuts-le h' n cut)
            (omega (arith, short))
            (subst
              (λ e.
                Tiles floor ceiling (i + 1) e
                  (chunk_loop gear floor ceiling bits bs (i + 1) h' (i + 1)))
              same next)
      at_cut false uncut next on =
          let same : i + 1 + length bs ≡ i + suc (length bs) = omega arith in
          subst
            (λ e.
              Tiles floor ceiling start e (chunk_loop gear floor ceiling bits bs start h' (i + 1)))
            same (on (omega (arith, cuts-lt h' n uncut)))

-- The chunks of a range of the body follow each other from its start to its end, without gap or
-- overlap; none is empty, none is longer than the larger of the two bounds (or one byte, if both
-- are 0), and all but the last are at least as long as the lower bound.
pub cdc_candidates-Tiles :
    (blake3 : List ℕ → List ℕ) (body : List ℕ) (range : Span) (floor ceiling bits : ℕ)
    → IsInside range body
    → Tiles floor ceiling range.start range.end
        (cdc_candidates blake3 body range floor ceiling bits)
unfolding cdc_candidates slice
cdc_candidates-Tiles blake3 body range floor ceiling bits inside =
    let same : range.start + length (slice range body) ≡ range.end = omega (
      arith,
      length-take (range.end - range.start) (drop range.start body),
      length-drop range.start body,
      inside.ordered,
      inside.within,
    ) in
    subst
      (λ e. Tiles floor ceiling range.start e (
        chunk_loop (gear_at blake3) floor ceiling bits (slice range body) range.start 0
          range.start))
      same
      (chunk_loop-Tiles (gear_at blake3) floor ceiling bits (slice range body) range.start 0
        range.start (omega arith) (omega arith))
