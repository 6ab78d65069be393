-- ===== src/Chunks.antt =====
-- crates/muka-split/src/cdc.rs: content-defined chunks, over the gear table. `h << 1` drops
-- the highest bit of a `u64`.
pub mod Tiling
use muka_ai_trim.Common.{
  true, false, ℕ, ◌+◌, ◌-◌, ◌*◌, ◌%◌, ◌^◌, min, Bool, ◌&&◌, ◌||◌, List, [], ◌∷◌, leb, ltb, ◌==◌,
  if◌then◌else◌, u64_mod, take, drop,
}
use muka_ai_trim.Digest.{chunk, gear_at}
use muka_ai_trim.Json.{Span, slice}
use muka_ai_trim.Policy.{Cand}

module _ (gear : ℕ → ℕ) (floor ceiling bits : ℕ) where
  abbrev pub chunk_cand : ℕ → ℕ → Cand
  chunk_cand start end = record {
    span = record { start = start; end = end };
    kind = chunk;
    floor = floor;
  }

  unfoldable pub roll : ℕ → ℕ → ℕ
  roll h b = (h * 2 % u64_mod + gear b) % u64_mod

  -- `h & mask == 0` with the mask of the lowest `min(bits, 40)` bits.
  unfoldable pub cuts : ℕ → ℕ → Bool
  cuts h len = leb floor len && ((h % 2 ^ min bits 40 == 0) || leb ceiling len)

  -- The bytes from position `i` of the range on; the tail behind the last cut.
  unfoldable pub chunk_loop : List ℕ → ℕ → ℕ → ℕ → List Cand
  chunk_loop [] start h i = if ltb start i then chunk_cand start i ∷ [] else []
  chunk_loop (b ∷ bs) start h i = elim (cuts (roll h b) (i + 1 - start)) [
    | true ↦ chunk_cand start (i + 1) ∷ chunk_loop bs (i + 1) (roll h b) (i + 1)
    | false ↦ chunk_loop bs start (roll h b) (i + 1)
  ]

unfoldable pub cdc_candidates : (List ℕ → List ℕ) → List ℕ → Span → ℕ → ℕ → ℕ → List Cand
cdc_candidates blake3 body range floor ceiling bits =
    chunk_loop (gear_at blake3) floor ceiling bits (slice range body) range.start 0 range.start
