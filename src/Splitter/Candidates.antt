-- ===== src/Splitter/Candidates.antt =====
-- `structural_groups` and `collect_payloads` of crates/muka-split/src/splitter.rs: the spans of a JSON
-- body that deserve a block. A key is compared as bytes: one that is not UTF-8 equals none of the names.
use muka_ai_trim.Common.{
  ℕ, zero, suc, ◌+◌, ◌*◌, Bool, true, false, ◌&&◌, ◌||◌, List, [], ◌∷◌, ◌++◌, leb, ltb, ◌==◌,
  if◌then◌else◌, length, take, drop, bytes_eq, Result, ok, err, ◌>>=◌,
}
use muka_ai_trim.Digest.{json_member, media, text, codes}
use muka_ai_trim.Json.{Span, span_len, slice}
use muka_ai_trim.Json.Scan.{ValueKind, ValueSpan, string, object, array}
use muka_ai_trim.Json.Members.{Member, members_of_object, elements_of_array}
use muka_ai_trim.Policy.{Policy, Cand, Group, Skip, unrecognised}
use Prim.Native.String.{String}

abbrev pub any_key : List String → List ℕ → Bool
any_key [] key = false
any_key (k ∷ ks) key = bytes_eq (codes k) key || any_key ks key

abbrev pub array_member_keys : List String
array_member_keys = "messages" ∷ "input" ∷ []

abbrev pub whole_value_keys : List String
whole_value_keys =
    "tools" ∷ "functions" ∷ "response_format" ∷ "prompt" ∷ "audio" ∷ "file" ∷ "file_ids"
    ∷ "tool_choice" ∷ []

abbrev pub media_keys : List String
media_keys = "url" ∷ "file_data" ∷ "data" ∷ "b64_json" ∷ "image_base64" ∷ "input_audio" ∷ []

abbrev pub max_payload_cands : ℕ
max_payload_cands = 4096

abbrev pub data_uri_prefix : List ℕ
data_uri_prefix = codes "data:"

unfoldable pub is_media_key : List ℕ → Bool
is_media_key key = any_key media_keys key

abbrev pub first_is : ℕ → List ℕ → Bool
first_is b [] = false
first_is b (c ∷ cs) = c == b

unfoldable pub starts_with_data_uri : List ℕ → Span → Bool
starts_with_data_uri body s =
    let inner : List ℕ = slice s body in
    ltb (length data_uri_prefix + 2) (length inner)
    && (first_is 34 inner
        && bytes_eq (take (length data_uri_prefix) (drop 1 inner)) data_uri_prefix)

unfoldable pub looks_like_payload : List ℕ → Span → Bool
looks_like_payload body s = starts_with_data_uri body s || leb (4 * 1024) (span_len s)

abbrev pub is_string : ValueKind → Bool
is_string string = true
is_string k = false

abbrev pub is_array : ValueKind → Bool
is_array array = true
is_array k = false

module _ (body : List ℕ) (p : Policy) where
  unfoldable pub string_payload : Span → List Cand → List Cand
  string_payload s out =
      if leb p.min_payload_bytes (span_len s) && looks_like_payload body s
      then out
        ++ (record {
          span = s;
          kind = if starts_with_data_uri body s then media else text;
          floor = p.min_payload_bytes;
        }
            ∷ [])
      else out

  abbrev pub is_media_member : Member → Bool
  is_media_member m =
      is_media_key m.key
      && (is_string m.value.kind && leb p.min_payload_bytes (span_len m.value.span))

  unfoldable pub member_payloads :
      (ValueSpan → List Cand → List Cand) → List Member → List Cand → List Cand
  member_payloads collect [] out = out
  member_payloads collect (m ∷ ms) out = member_payloads collect ms (
      if is_media_member m
      then out ++ (record { span = m.value.span; kind = media; floor = p.min_payload_bytes } ∷ [])
      else collect m.value out)

  unfoldable pub element_payloads :
      (ValueSpan → List Cand → List Cand) → List ValueSpan → List Cand → List Cand
  element_payloads collect [] out = out
  element_payloads collect (v ∷ vs) out = element_payloads collect vs (collect v out)

  -- `room` levels may follow: the source counts `depth` up to `max_depth`.
  unfoldable pub collect_payloads : ℕ → ValueSpan → List Cand → List Cand
  collect_payloads zero v out = out
  collect_payloads (suc room) v out = elim (leb max_payload_cands (length out)) [
    | true ↦ out
    | false ↦ elim v.kind [
      | string ↦ string_payload v.span out
      | object ↦ elim (members_of_object body v.span) [
        | err e ↦ out
        | ok ms ↦ member_payloads (collect_payloads room) ms out
      ]
      | array ↦ elim (elements_of_array body v.span) [
        | err e ↦ out
        | ok vs ↦ element_payloads (collect_payloads room) vs out
      ]
      | k ↦ out
    ]
  ]

  abbrev pub member_cand : ℕ → Span → Cand
  member_cand floor s = record { span = s; kind = json_member; floor = floor }

  -- The elements that reach the floor.
  unfoldable pub element_cands : ℕ → List ValueSpan → List Cand
  element_cands floor [] = []
  element_cands floor (v ∷ vs) =
      if leb floor (span_len v.span)
      then member_cand floor v.span ∷ element_cands floor vs
      else element_cands floor vs

  -- The candidates of one member: the whole value, or its elements.
  unfoldable pub cands_of_member : Member → Result Skip (List Cand × List Cand)
  cands_of_member m =
      if any_key array_member_keys m.key
      then (if is_array m.value.kind
          then elim (elements_of_array body m.value.span) [
            | err e ↦ err unrecognised
            | ok vs ↦ ok ([], element_cands p.min_history_block_bytes vs)
          ]
          else ok ([], []))
      else if any_key whole_value_keys m.key && leb p.min_block_bytes (span_len m.value.span)
      then ok (member_cand p.min_block_bytes m.value.span ∷ [], [])
      else ok ([], [])

  unfoldable pub member_cands : List Member → Result Skip (List Cand × List Cand)
  member_cands [] = ok ([], [])
  member_cands (m ∷ ms) = do
    (whole, scratch) ← cands_of_member m
    (wholes, scratches) ← member_cands ms
    ok (whole ++ wholes, scratch ++ scratches)

-- The key of `sort_by_key`, which is a stable sort.
abbrev pub before_span : Span → Span → Bool
before_span a b = ltb a.start b.start || ((a.start == b.start) && leb a.end b.end)

unfoldable pub insert_cand : Cand → List Cand → List Cand
insert_cand c [] = c ∷ []
insert_cand c (d ∷ ds) =
    let later = d ∷ insert_cand c ds in if before_span c.span d.span then c ∷ d ∷ ds else later

unfoldable pub sort_cands : List Cand → List Cand
sort_cands [] = []
sort_cands (c ∷ cs) = insert_cand c (sort_cands cs)

unfoldable pub groups_of : List Cand → List Group
groups_of [] = []
groups_of (c ∷ cs) = record { cand = c; children = [] } ∷ groups_of cs

-- The groups that end before the payload starts are passed for good.
unfoldable pub pass_groups : Cand → List Group → List Group → List Group × List Group
pass_groups pl front [] = (front, [])
pass_groups pl front (g ∷ gs) =
    let further = pass_groups pl (front ++ (g ∷ [])) gs in
    if leb g.cand.span.end pl.span.start then further else (front, g ∷ gs)

abbrev pub holds_payload : Cand → List Group → Bool
holds_payload pl [] = false
holds_payload pl (g ∷ gs) = leb g.cand.span.start pl.span.start && leb pl.span.end g.cand.span.end

abbrev pub add_child : Cand → List Group → List Group
add_child pl [] = []
add_child pl (g ∷ gs) = record g { children = g.children ++ (pl ∷ []) } ∷ gs

-- The loop over the payloads: the groups with their children, and the payloads in no group.
unfoldable pub assign : List Cand → List Group → List Group → List Cand → List Group × List Cand
assign [] front rest promoted = (front ++ rest, promoted)
assign (pl ∷ pls) front rest promoted =
    let (front', rest') = pass_groups pl front rest in
    assign pls front' (if holds_payload pl rest' then add_child pl rest' else rest')
      (if holds_payload pl rest' then promoted else promoted ++ (pl ∷ []))

unfoldable pub merge_groups : List Group → List Cand → List Group
merge_groups [] [] = []
merge_groups [] (y ∷ ys) = record { cand = y; children = [] } ∷ merge_groups [] ys
merge_groups (x ∷ xs) [] = x ∷ merge_groups xs []
merge_groups (x ∷ xs) (y ∷ ys) =
    let group_first = x ∷ merge_groups xs (y ∷ ys) in
    let payload_first = record { cand = y; children = [] } ∷ merge_groups (x ∷ xs) ys in
    if leb x.cand.span.start y.span.start then group_first else payload_first

module _ (body : List ℕ) (p : Policy) where
  unfoldable pub structural_groups : Span → Result Skip (List Group)
  structural_groups doc = elim (members_of_object body doc) [
    | err e ↦ err unrecognised
    | ok members ↦ do
      (wholes, scratches) ← member_cands body p members
      let cands = sort_cands (wholes ++ scratches)
      let payloads =
          collect_payloads body p (suc p.max_depth) (record { span = doc; kind = object }) []
      let placed = assign payloads [] (groups_of cands) []
      ok (merge_groups placed.0 placed.1)
  ]
