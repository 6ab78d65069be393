-- ===== src/Examples/Tiles.antt =====
-- Chunks of a short range.
use muka_ai_trim.Common.{ℕ, List, [], ◌∷◌, arith, drop}
use muka_ai_trim.Json.{Span}
use muka_ai_trim.Chunks.{cdc_candidates}
use muka_ai_trim.Chunks.Tiling.{Tiles, cdc_candidates-Tiles}

abbrev body : List ℕ
body = 5 ∷ 6 ∷ 7 ∷ 8 ∷ 9 ∷ 10 ∷ []

abbrev range : Span
range = record { start = 1; end = 6 }

cdc_candidates-Tiles_example : Tiles 2 3 1 6 (cdc_candidates (drop 12) body range 2 3 4)
cdc_candidates-Tiles_example =
    cdc_candidates-Tiles (drop 12) body range 2 3 4
      (record { ordered = omega arith; within = omega arith })
