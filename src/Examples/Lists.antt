-- ===== src/Examples/Lists.antt =====
-- The settings, the log of turns, its groups and the members of a JSON object.
use muka_ai_trim.Common.{
  ℕ, ◌-◌, ◌%◌, ◌≤◌, ◌≡◌, ◌≢◌, refl, max, min, none, List, [], ◌∷◌, length, drop, ok, err, false,
  u64_mod,
}
use muka_ai_trim.Digest.{codes}
use muka_ai_trim.Json.{Span, slice, span_len}
use muka_ai_trim.Json.Chain.{Chain, members_of_object-Chain}
use muka_ai_trim.Json.Ends.{members_of_object-ends}
use muka_ai_trim.Json.Members.{
  Member, elements_of_array, values, members_of_object, members_loop, member_at, item_end,
  is_empty_at,
}
use muka_ai_trim.Json.Scan.{
  out_of_fuel, count_while, byte_at, skip_ws, hex_end, escape_end, char_end, string_loop,
  scan_string, integer_end, fraction_end, exponent_end, scan_number, scan_literal, container_round,
  container_loop, scan_container, value_at, scan_value_depth,
}
use muka_ai_trim.Json.Text.{
  encode_utf8, to_digit, unescape, hex_digit, read_hex4, low_half, decode_unicode, decode_escape,
  decode_char, decode_loop, decode_string,
}
use muka_ai_trim.Metrics.{Turn, new_log, recent, buckets}
use muka_ai_trim.Metrics.Groups.{sum_buckets, sum_turns, buckets_total}
use muka_ai_trim.Metrics.Log.{push_all, recent-push_all}

abbrev turn_to : List ℕ → ℕ → Turn
turn_to path body = record {
  profile = [];
  seq = 1;
  path = path;
  status = 200;
  body_bytes = body;
  wire_bytes = 2;
  refs = 3;
  refs_hit = 1;
  pushed = 0;
  repairs = 0;
  link_ms = 1;
  upstream_ms = 1;
  split = false;
  skip_reason = none;
  store_blocks = 4;
}

abbrev history : List Turn
history = turn_to (codes "/a") 10 ∷ turn_to (codes "/b") 20 ∷ turn_to (codes "/a") 30 ∷ []

recent-push_all_example :
    ((push_all history (new_log 2)).turns ≡ drop (length history - max 2 1) history)
    × (length (push_all history (new_log 2)).turns ≤ max 2 1)
    × (recent 1 (push_all history (new_log 2)) ≡ drop (length history - min 1 (max 2 1)) history)
recent-push_all_example = recent-push_all history 2 1

buckets_total_example :
    (sum_buckets (λ b. b.requests) (buckets (λ t. t.path) history) % u64_mod
      ≡ length history % u64_mod)
    × (sum_buckets (λ b. b.body_bytes) (buckets (λ t. t.path) history) % u64_mod
        ≡ sum_turns (λ t. t.body_bytes) history % u64_mod)
    × (sum_buckets (λ b. b.wire_bytes) (buckets (λ t. t.path) history) % u64_mod
        ≡ sum_turns (λ t. t.wire_bytes) history % u64_mod)
    × (sum_buckets (λ b. b.refs) (buckets (λ t. t.path) history) % u64_mod
        ≡ sum_turns (λ t. t.refs) history % u64_mod)
    × (sum_buckets (λ b. b.refs_hit) (buckets (λ t. t.path) history) % u64_mod
        ≡ sum_turns (λ t. t.refs_hit) history % u64_mod)
buckets_total_example = buckets_total (λ t. t.path) history

-- ` {"a":1, "b":[]}`
abbrev text : List ℕ
text = 32 ∷ 123 ∷ 34 ∷ 97 ∷ 34 ∷ 58 ∷ 49 ∷ 44 ∷ 32 ∷ 34 ∷ 98 ∷ 34 ∷ 58 ∷ 91 ∷ 93 ∷ 125 ∷ []

abbrev whole : Span
whole = record { start = 1; end = 16 }

abbrev members : List Member
members = elim (members_of_object text whole) [ err e ↦ [] | ok ms ↦ ms ]

scans : members_of_object text whole ≡ ok members
unfolding span_len slice count_while byte_at skip_ws hex_end escape_end char_end string_loop
    scan_string integer_end fraction_end exponent_end scan_number scan_literal container_round
    container_loop scan_container value_at scan_value_depth encode_utf8 to_digit unescape hex_digit
    read_hex4 low_half decode_unicode decode_escape decode_char decode_loop decode_string item_end
    member_at members_loop is_empty_at members_of_object
scans = refl

members_of_object-Chain_example : Chain text 16 2 (values text members)
members_of_object-Chain_example = members_of_object-Chain text whole members scans

members_of_object-ends_example :
    (decode_string text whole ≢ err out_of_fuel)
    × (members_of_object text whole ≢ err out_of_fuel)
    × (elements_of_array text whole ≢ err out_of_fuel)
members_of_object-ends_example = members_of_object-ends text whole
