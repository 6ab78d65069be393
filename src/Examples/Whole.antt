-- ===== src/Examples/Whole.antt =====
-- A whole split of a small JSON body, and a peer that rebuilds it.
use muka_ai_trim.Common.{
  ℕ, ◌≤◌, ◌≡◌, refl, List, [], ◌∷◌, ok, err, arith, take_of_ge, false, bytes_eq,
}
use muka_ai_trim.Digest.{digest_of, le_bytes}
use muka_ai_trim.Examples.Split.{hash, out_of, shelf_of, shelf_of-agrees}
use muka_ai_trim.Json.{Span, IsInside}
use muka_ai_trim.Policy.{default_policy}
use muka_ai_trim.Program.{Block}
use muka_ai_trim.Resolve.Sound.{IsFaithful}
use muka_ai_trim.Splitter.{Ctx, SplitOutput, split}
use muka_ai_trim.Splitter.Blocks.{Names}
use muka_ai_trim.Splitter.Identity.{IsExact}
use muka_ai_trim.Splitter.Literals.{length-slice}
use muka_ai_trim.Splitter.Blocks.{digests}
use muka_ai_trim.Splitter.Closed.{IsSelfContained}
use muka_ai_trim.Splitter.Whole.{
  split_body-IsExact, resolve-split_body, split_body-IsSelfContained, missing_blocks-split_body,
}
use muka_ai_trim.Splitter.{
  new_builder, flush, queue, count_hit, count_nested, nest_child, nest_children, close_nest,
  shape_block, make_block, count_ref, count_new, offer, put_ref, reference, reference_all, seal,
  finish, split_groups,
}
use muka_ai_trim.Splitter.Candidates.{
  is_media_key, starts_with_data_uri, looks_like_payload, string_payload, member_payloads,
  element_payloads, collect_payloads, element_cands, cands_of_member, member_cands, insert_cand,
  sort_cands, groups_of, pass_groups, assign, merge_groups, structural_groups,
}
use muka_ai_trim.Splitter.Body.{body_groups, split_found, split_body}
use muka_ai_trim.Json.{span_len, slice}
use muka_ai_trim.Json.Scan.{
  count_while, byte_at, skip_ws, hex_end, escape_end, char_end, string_loop, scan_string,
  container_round, container_loop, scan_container, value_at, scan_value_depth, scan_value,
  scan_document,
}
use muka_ai_trim.Json.Text.{decode_char, decode_loop, decode_string}
use muka_ai_trim.Json.Members.{
  item_end, member_at, members_loop, is_empty_at, members_of_object, element_at, elements_loop,
  elements_of_array,
}
use muka_ai_trim.Digest.{to_u8, le_bytes, digest_of}
use muka_ai_trim.Program.{
  raw_block, program_block, instr_wire_cost, sum_u64, program_wire_cost, total_len, wire_cost,
  push_instr, normalize_loop, normalize,
}
use muka_ai_trim.Resolve.{
  find_block, open_body, step, resolve_loop, rounds, resolve, contains, missing_blocks,
}
use muka_ai_trim.Policy.{wire_bytes, inflates}

-- `{"input":["ab"]}`
abbrev body : List ℕ
body = 123 ∷ 34 ∷ 105 ∷ 110 ∷ 112 ∷ 117 ∷ 116 ∷ 34 ∷ 58 ∷ 91 ∷ 34 ∷ 97 ∷ 98 ∷ 34 ∷ 93 ∷ 125 ∷ []

abbrev ctx : Ctx (List Block)
ctx = record {
  peer = λ d. false;
  local_has = λ l d. false;
  local_put = λ l b. b ∷ l;
  policy = record default_policy { min_body_bytes = 2; min_history_block_bytes = 3 };
  blake3 = hash;
}

span_small : (s : Span) → IsInside s body → span_len s ≤ 16
unfolding span_len
span_small s i = omega (arith, i.within)

names : Names hash (λ d. d) body
unfolding digest_of le_bytes
names k s i = take_of_ge 16 (slice s body) (omega (arith, length-slice s body i, span_small s i))

abbrev out : SplitOutput
out = out_of (split_body ctx body [])

does_split : split_body ctx body [] ≡ split out
unfolding new_builder flush queue count_hit count_nested nest_child nest_children close_nest
    shape_block make_block count_ref count_new offer put_ref reference reference_all seal finish
    split_groups is_media_key starts_with_data_uri looks_like_payload string_payload member_payloads
    element_payloads collect_payloads element_cands cands_of_member member_cands insert_cand
    sort_cands groups_of pass_groups assign merge_groups structural_groups body_groups split_found
    split_body span_len slice count_while byte_at skip_ws hex_end escape_end char_end string_loop
    scan_string container_round container_loop scan_container value_at scan_value_depth scan_value
    scan_document decode_char decode_loop decode_string item_end member_at members_loop is_empty_at
    members_of_object element_at elements_loop elements_of_array to_u8 le_bytes digest_of raw_block
    program_block instr_wire_cost sum_u64 program_wire_cost total_len wire_cost push_instr
    normalize_loop normalize find_block open_body step resolve_loop rounds resolve contains
    wire_bytes inflates bytes_eq
does_split = refl

is_exact : IsExact ctx (λ d. d) body names out
is_exact = split_body-IsExact ctx (λ d. d) body names [] out does_split

peer_has : IsFaithful (λ d. d) (shelf_of out.to_push)
peer_has = record { agrees = shelf_of-agrees out.to_push is_exact.truthful }

abbrev rebuilt : List ℕ
rebuilt = elim (resolve (shelf_of out.to_push) out.instrs 100 8) [ ok b ↦ b | err e ↦ [] ]

resolves : resolve (shelf_of out.to_push) out.instrs 100 8 ≡ ok rebuilt
unfolding new_builder flush queue count_hit count_nested nest_child nest_children close_nest
    shape_block make_block count_ref count_new offer put_ref reference reference_all seal finish
    split_groups is_media_key starts_with_data_uri looks_like_payload string_payload member_payloads
    element_payloads collect_payloads element_cands cands_of_member member_cands insert_cand
    sort_cands groups_of pass_groups assign merge_groups structural_groups body_groups split_found
    split_body span_len slice count_while byte_at skip_ws hex_end escape_end char_end string_loop
    scan_string container_round container_loop scan_container value_at scan_value_depth scan_value
    scan_document decode_char decode_loop decode_string item_end member_at members_loop is_empty_at
    members_of_object element_at elements_loop elements_of_array to_u8 le_bytes digest_of raw_block
    program_block instr_wire_cost sum_u64 program_wire_cost total_len wire_cost push_instr
    normalize_loop normalize find_block open_body step resolve_loop rounds resolve contains
    wire_bytes inflates bytes_eq
resolves = refl

resolve-split_body_example : rebuilt ≡ body
resolve-split_body_example =
    resolve-split_body ctx (λ d. d) body names [] out (shelf_of out.to_push) 100 8 rebuilt
      does_split peer_has resolves

split_body-IsSelfContained_example : IsSelfContained ctx out
split_body-IsSelfContained_example = split_body-IsSelfContained ctx body [] out does_split

missing_blocks-split_body_example :
    missing_blocks (shelf_of out.to_push) (contains (digests out.to_push)) out.instrs 4 ≡ []
missing_blocks-split_body_example =
    missing_blocks-split_body ctx body [] out (shelf_of out.to_push)
      (contains (digests out.to_push)) 4 does_split (λ d k. ground arith) (λ d k. k)
