-- ===== src/Examples/Exchange.antt =====
-- A small JSON body, sent split to a peer with a store that has one of its elements.
use muka_ai_trim.Digest.{digest_of, le_bytes}
use muka_ai_trim.Json.{Span, IsInside}
use muka_ai_trim.Policy.{default_policy}
use muka_ai_trim.Program.{Block}
use muka_ai_trim.Splitter.{Ctx, SplitOutput, split}
use muka_ai_trim.Splitter.Blocks.{Names}
use muka_ai_trim.Splitter.Literals.{length-slice}
use muka_ai_trim.Splitter.{
  new_builder, flush, queue, count_hit, count_nested, nest_child, nest_children, close_nest,
  shape_block, make_block, count_ref, count_new, offer, put_ref, reference, reference_all, seal,
  finish, split_groups,
}
use muka_ai_trim.Splitter.Candidates.{
  is_media_key, starts_with_data_uri, looks_like_payload, string_payload, member_payloads,
  element_payloads, collect_payloads, element_cands, cands_of_member, member_cands, insert_cand,
  sort_cands, groups_of, pass_groups, assign, merge_groups, structural_groups,
}
use muka_ai_trim.Splitter.Body.{body_groups, split_found, split_body}
use muka_ai_trim.Json.{span_len, slice}
use muka_ai_trim.Json.Scan.{
  count_while, byte_at, scan_number, integer_end, fraction_end, exponent_end, skip_ws, hex_end,
  escape_end, char_end, string_loop, scan_string, container_round, container_loop, scan_container,
  value_at, scan_value_depth, scan_value, scan_document,
}
use muka_ai_trim.Json.Text.{decode_char, decode_loop, decode_string}
use muka_ai_trim.Json.Members.{
  item_end, member_at, members_loop, is_empty_at, members_of_object, element_at, elements_loop,
  elements_of_array,
}
use muka_ai_trim.Digest.{to_u8, le_bytes, digest_of}
use muka_ai_trim.Program.{
  raw_block, program_block, instr_wire_cost, sum_u64, program_wire_cost, total_len, wire_cost,
  push_instr, normalize_loop, normalize,
}
use muka_ai_trim.Resolve.{find_block, open_body, step, resolve_loop, rounds, resolve, contains}
use muka_ai_trim.Policy.{wire_bytes, inflates}
use muka_ai_trim.Program.Meaning.{body_bytes}
use muka_ai_trim.Resolve.Complete.{CanResolve}
use muka_ai_trim.Session.Lookups.{source-has}
use muka_ai_trim.Common.{
  if◌then◌else◌, ◌==◌, ◌+◌, ◌%◌, ◌/◌, sym, ◌∙◌, subst, some, Bool-cases, inr, bytes_eq_iff, ◌*◌, ℕ,
  zero, suc, ◌≤◌, ◌≡◌, refl, ap, List, [], ◌∷◌, ◌++◌, ok, none, arith, length, false, true, take,
  drop, bytes_eq, inl,
}
use muka_ai_trim.Digest.{Digest, BlockKind, raw, json_member, media, chunk, text, to_u8}
use muka_ai_trim.Codec.{
  encode_program, encode_instrs, encode_instr, encode_block_frame, encode_block_body,
}
use muka_ai_trim.Varint.{write_uvarint, write_loop}
use muka_ai_trim.Examples.Packed.{codec, codec_packs}
use muka_ai_trim.Agent.{
  Driven, drive, record_end, attempts_of, drive_loop, on_taken, after_outcome, retryable, take_conn,
}
use muka_ai_trim.Agent.Attempts.{IsOrderly, drive-IsOrderly}
use muka_ai_trim.Config.{default_local}
use muka_ai_trim.Metrics.{new_log}
use muka_ai_trim.Session.{io, fallback_to_whole}
use muka_ai_trim.Session.Reply.{
  unreadable, local_end, on_arrival, replies, reply_to, on_response_end, complete, start,
}
use muka_ai_trim.Examples.Links.{first, link, wire, conn, answers}
use muka_ai_trim.Message.{RequestHead, chat_completions}
use muka_ai_trim.Program.{lit, ref, bytes}
use muka_ai_trim.Session.{Hello, acked, forwarded, remote_end, proves, source}
use muka_ai_trim.Session.Exchange.{IsWireSplit, remote_end-split_body}
use muka_ai_trim.Session.Local
use muka_ai_trim.Session.Local.{is_split, hello_of, request_frames}
use muka_ai_trim.Session.Pushed.{IsPeerReady}
use muka_ai_trim.Session.Steps.{IsWired, IsTrusted, waiting}
use muka_ai_trim.Store.{Inner, default_config, empty_inner, has, find_entry}
use muka_ai_trim.Splitter.Fit.{Kinds, IsFitting}
use muka_ai_trim.Splitter.Delivered.{split_body-IsFitting}

-- The kind and the length in one byte, the bytes, and zeros.
abbrev hash_of : ℕ → List ℕ → List ℕ
hash_of k xs =
    (k * 16 + length xs) ∷ (xs ++ (0 ∷ 0 ∷ 0 ∷ 0 ∷ 0 ∷ 0 ∷ 0 ∷ 0 ∷ 0 ∷ 0 ∷ 0 ∷ 0 ∷ 0 ∷ 0 ∷ 0 ∷ []))

abbrev first_byte : List ℕ → ℕ
first_byte [] = 0
first_byte (k ∷ xs) = k

abbrev hash : List ℕ → List ℕ
hash fed = hash_of (first_byte (drop 12 fed)) (drop 21 fed)

abbrev content : Digest → List ℕ
content [] = []
content (k ∷ xs) = take (k % 16) xs

abbrev kind_at : ℕ → BlockKind
kind_at zero = raw
kind_at (suc zero) = json_member
kind_at (suc (suc zero)) = media
kind_at (suc (suc (suc zero))) = chunk
kind_at (suc (suc (suc (suc k)))) = text

abbrev kind_of : Digest → BlockKind
kind_of d = kind_at (first_byte d / 16)

-- `{"input":[2,3]}`
abbrev body : List ℕ
body = 123 ∷ 34 ∷ 105 ∷ 110 ∷ 112 ∷ 117 ∷ 116 ∷ 34 ∷ 58 ∷ 91 ∷ 50 ∷ 44 ∷ 51 ∷ 93 ∷ 125 ∷ []

-- The block of the first element, which the peer has.
abbrev kept : Block
kept = record {
  digest = 17 ∷ 50 ∷ 0 ∷ 0 ∷ 0 ∷ 0 ∷ 0 ∷ 0 ∷ 0 ∷ 0 ∷ 0 ∷ 0 ∷ 0 ∷ 0 ∷ 0 ∷ 0 ∷ [];
  kind = json_member;
  len = 1;
  body = bytes (50 ∷ []);
}

abbrev shelf : Inner
shelf = record empty_inner {
  map =
      (kept.digest, record { len = 1; kind = json_member; seq = 1; at = 2; body = bytes (50 ∷ []) })
      ∷ [];
  seq = 1;
  total = 1;
}

abbrev ctx : Ctx (List Block)
ctx = record {
  peer = λ d. bytes_eq kept.digest d;
  local_has = λ l d. false;
  local_put = λ l b. b ∷ l;
  policy = record default_policy { min_body_bytes = 2; min_history_block_bytes = 1 };
  blake3 = hash;
}

span_small : (s : Span) → IsInside s body → span_len s ≤ 15
unfolding span_len
span_small s i = omega (arith, i.within)

padded : (m : ℕ) (xs ys : List ℕ) → length xs ≤ m → take (length xs) (take m (xs ++ ys)) ≡ xs
padded m [] ys h = refl
padded zero (x ∷ xs) ys h = absurd (omega (arith, h))
padded (suc m) (x ∷ xs) ys h = ap (λ (r : List ℕ). x ∷ r) (padded m xs ys (omega (arith, h)))

kind_at-to_u8 : (k : BlockKind) → kind_at (to_u8 k) ≡ k
unfolding to_u8
kind_at-to_u8 raw = refl
kind_at-to_u8 json_member = refl
kind_at-to_u8 media = refl
kind_at-to_u8 chunk = refl
kind_at-to_u8 text = refl

slice_small : (s : Span) → IsInside s body → length (slice s body) ≤ 15
slice_small s i = omega (arith, length-slice s body i, span_small s i)

names : Names hash content body
unfolding digest_of le_bytes
names k s i =
    let n : (to_u8 k * 16 + length (slice s body)) % 16 ≡ length (slice s body) =
      omega (arith, slice_small s i) in
    rw n (padded 15 (slice s body) _ (slice_small s i))

kinds : Kinds hash kind_of body
unfolding digest_of le_bytes
kinds k s i =
    let n : (to_u8 k * 16 + length (slice s body)) / 16 ≡ to_u8 k =
      omega (arith, slice_small s i) in
    rw n (kind_at-to_u8 k)

abbrev pushed : Block
pushed = record {
  digest = 17 ∷ 51 ∷ 0 ∷ 0 ∷ 0 ∷ 0 ∷ 0 ∷ 0 ∷ 0 ∷ 0 ∷ 0 ∷ 0 ∷ 0 ∷ 0 ∷ 0 ∷ 0 ∷ [];
  kind = json_member;
  len = 1;
  body = bytes (51 ∷ []);
}

abbrev out : SplitOutput
out = record {
  instrs =
      lit (123 ∷ 34 ∷ 105 ∷ 110 ∷ 112 ∷ 117 ∷ 116 ∷ 34 ∷ 58 ∷ 91 ∷ [])
      ∷ ref kept.digest 1
      ∷ lit (44 ∷ [])
      ∷ ref pushed.digest 1
      ∷ lit (93 ∷ 125 ∷ [])
      ∷ [];
  to_push = pushed ∷ [];
  stats = record {
    body_len = 15;
    lit_bytes = 13;
    instrs = 5;
    refs = 2;
    refs_hit = 1;
    refs_new = 1;
    ref_covered = 2;
    blocks_created = 1;
    push_blocks = 1;
    push_bytes = 1;
    instr_overhead = 52;
    structural = true;
    cdc_used = false;
  };
}

does_split : split_body ctx body [] ≡ split out
unfolding scan_number integer_end fraction_end exponent_end new_builder flush queue count_hit
    count_nested nest_child nest_children close_nest shape_block make_block count_ref count_new
    offer put_ref reference reference_all seal finish split_groups is_media_key starts_with_data_uri
    looks_like_payload string_payload member_payloads element_payloads collect_payloads
    element_cands cands_of_member member_cands insert_cand sort_cands groups_of pass_groups assign
    merge_groups structural_groups body_groups split_found split_body span_len slice count_while
    byte_at skip_ws hex_end escape_end char_end string_loop scan_string container_round
    container_loop scan_container value_at scan_value_depth scan_value scan_document decode_char
    decode_loop decode_string item_end member_at members_loop is_empty_at members_of_object
    element_at elements_loop elements_of_array to_u8 le_bytes digest_of raw_block program_block
    instr_wire_cost sum_u64 program_wire_cost total_len wire_cost push_instr normalize_loop
    normalize find_block open_body step resolve_loop rounds resolve contains wire_bytes inflates
    bytes_eq
does_split = refl

on_wire : IsWireSplit out
unfolding encode_program encode_instrs encode_instr encode_block_frame encode_block_body
    write_uvarint write_loop
on_wire = record {
  instrs =
      (omega arith, ((refl, omega arith), (omega arith, ((refl, omega arith), (omega arith, tt)))));
  count = omega arith;
  blocks = (record { digest_16 = refl; len_u64 = omega arith; body_ok = refl }, tt);
  program_size = omega arith;
  block_sizes = (omega arith, tt);
}

-- The store has its one block, and nothing else.
shelf-has : (d : Digest) → has shelf d ≡ true → kept.digest ≡ d
unfolding has find_entry bytes_eq
shelf-has d h = elim (Bool-cases (bytes_eq kept.digest d)) [
  | inl same ↦ (bytes_eq_iff kept.digest d).0 same
  | inr other ↦ let none_there : false ≡ true = rw other at h in cc
]

has-shelf : (d : Digest) → bytes_eq kept.digest d ≡ true → has shelf d ≡ true
unfolding has find_entry bytes_eq
has-shelf d same = rw same refl

source-shelf : source shelf kept.digest ≡ some kept
unfolding source find_entry bytes_eq
source-shelf = refl

shelf-CanResolve :
    (d : Digest)
    → kept.digest ≡ d
    → CanResolve content (source shelf) 31 (ref d (length (content d)))
shelf-CanResolve d same =
    subst (λ e. CanResolve content (source shelf) 31 (ref e (length (content e)))) same
      (kept, source-shelf, refl, omega arith, refl)

shelf_bytes :
    (d : Digest) (b : Block)
    → kept.digest ≡ d
    → source shelf d ≡ some b
    → body_bytes content b.body ≡ content d
shelf_bytes d b same e =
    let at_kept : source shelf kept.digest ≡ some b =
      subst (λ k. source shelf k ≡ some b) (sym same) e in
    let it : some kept ≡ some b = sym source-shelf ∙ at_kept in
    let it' : kept ≡ b = cc in
    subst (λ k. body_bytes content b.body ≡ content k) same
      (subst (λ (x : Block). body_bytes content x.body ≡ content kept.digest) it' refl)

shelf_ready : IsPeerReady ctx content kind_of body names kinds default_config 5 shelf out.to_push
shelf_ready = record {
  faithful = record { agrees = λ d b e. shelf_bytes d b (shelf-has d (source-has shelf d b e)) e };
  accurate = has-shelf;
  known = λ d h. shelf-CanResolve d (shelf-has d h);
  room = record { bytes_fit = omega arith; count_fit = omega arith; each_fits = (omega arith, tt) };
}

abbrev head : RequestHead
head = record {
  method = "POST";
  path = [];
  headers = [];
  body_len = 15;
  body_digest = digest_of hash raw body;
  kind = chat_completions;
  split = true;
}

abbrev greeting : Hello
greeting = hello_of link

wired :
    IsWired default_config hash codec (λ p. ok greeting) (λ p. ok head) none wire 5 greeting head
wired = record { packing = codec_packs; reads_hello = refl; reads_head = refl }

trusted :
    IsTrusted default_config hash codec
      (λ p. ok greeting)
      (λ p. ok head)
      none
      wire
      5
      first
      link
      false
unfolding IsTrusted proves
trusted = inl (refl, refl)

split_body-IsFitting_example : IsFitting content kind_of ctx body names kinds out
split_body-IsFitting_example =
    split_body-IsFitting ctx content kind_of body names kinds [] out does_split

remote_end-split_body_example :
    remote_end default_config hash codec
      (λ p. ok greeting)
      (λ p. ok head)
      none
      5
      (waiting shelf none [] 0 false)
      (request_frames wire first head (Local.split out) link)
    ≡ acked true ∷ forwarded head body ∷ []
remote_end-split_body_example =
    remote_end-split_body ctx content kind_of body names kinds default_config codec
      (λ p. ok greeting) (λ p. ok head) none wire 5 first head [] out link shelf none [] 0 false
      does_split on_wire shelf_ready (omega arith) wired trusted refl refl (omega arith)

-- The agent's first connection breaks behind the upload of the split, and the second one answers.
abbrev driven : Driven
driven =
    (drive wire default_local head body 5 1 900
      (λ n. record {
        dialled = ok conn;
        arrivals = if n == 1 then unreadable (io "reset by peer") ∷ [] else answers;
        upload_fails = none;
      })
      (record { link = link; pool = []; head_sent = false }) (new_log 4) (Local.split out) none).0

-- It sends the split, and then the body whole.
sends_twice : length driven.attempts ≡ 2
unfolding drive record_end attempts_of drive_loop on_taken after_outcome retryable fallback_to_whole
    take_conn local_end on_arrival replies reply_to on_response_end complete start is_split
sends_twice = refl

drive-IsOrderly_example : IsOrderly wire default_local head body 5 (Local.split out) driven
drive-IsOrderly_example =
    drive-IsOrderly wire default_local head body 5 1 900
      (λ n. record {
        dialled = ok conn;
        arrivals = if n == 1 then unreadable (io "reset by peer") ∷ [] else answers;
        upload_fails = none;
      })
      (record { link = link; pool = []; head_sent = false }) (new_log 4) (Local.split out) none
