-- ===== src/Examples/Scan.antt =====
-- The JSON scanner on a blank and a small object.
use muka_ai_trim.Common.{ℕ, List, [], ◌∷◌, ◌≡◌, ◌≢◌, ◌≤◌, refl, ok, err}
use muka_ai_trim.Json.Scan.{
  ValueSpan, object, out_of_fuel, count_while, byte_at, skip_ws, hex_end, escape_end, char_end,
  string_loop, scan_string, container_round, container_loop, scan_container, value_at,
  scan_value_depth,
}
use muka_ai_trim.Json.Bounds.{StandsAt}
use muka_ai_trim.Json.Values.{scan_value_depth-StandsAt}
use muka_ai_trim.Json.Total.{scan_value_depth-ne-out_of_fuel}

-- ` {"a":[1]}`
abbrev text : List ℕ
text = 32 ∷ 123 ∷ 34 ∷ 97 ∷ 34 ∷ 58 ∷ 91 ∷ 49 ∷ 93 ∷ 125 ∷ []

abbrev found : ValueSpan
found = record { span = record { start = 1; end = 10 }; kind = object }

scans : scan_value_depth text 0 0 ≡ ok found
unfolding scan_value_depth value_at scan_container container_loop container_round scan_string
    string_loop char_end escape_end hex_end skip_ws byte_at count_while
scans = refl

stands_example : (0 ≤ 1) × StandsAt text (skip_ws text 0) (found.span)
stands_example = scan_value_depth-StandsAt text 0 0 found scans

ends_example : scan_value_depth text 0 0 ≢ err out_of_fuel
ends_example = scan_value_depth-ne-out_of_fuel text 0 0
