-- ===== src/Session.antt =====
-- crates/muka-gateway/src/session.rs: upload frames, the rebuild of a request, and the peer's side
-- of a connection as a step from one frame to the next. The JSON payloads are read by parameters.
pub mod Upload
pub mod Rebuilt
pub mod Reads
pub mod Local
pub mod Reply
pub mod Charges
pub mod Accounts
pub mod Steps
pub mod Handled
pub mod Served
pub mod Lookups
pub mod Kept
pub mod Split
pub mod Pushed
pub mod Exchange
use muka_ai_trim.Common.{
  ℕ, zero, suc, ◌+◌, ◌%◌, Bool, true, false, not, ◌&&◌, ◌||◌, Option, none, some, List, [], ◌∷◌,
  ◌++◌, ltb, ◌==◌, if◌then◌else◌, length, bytes_eq, Result, ok, err, ◌>>=◌, ◌>>◌, guard, map_err,
  u64_mod,
}
use muka_ai_trim.Digest.{Digest, digest_of, raw}
use muka_ai_trim.Program.{Instr, Block}
use muka_ai_trim.Resolve.{resolve_reads, ResolveError, resolve, missing_blocks}
use muka_ai_trim.Resolve
use muka_ai_trim.Codec.{
  Tag, Frame, decode_program, decode_block_frame, hello, hello_ack, program_tag, block_bytes,
  block_program, need, request_body, program_z, block_bytes_z, block_program_z, request_body_z,
  end_of_body, ping, pong, reset, fail,
}
use muka_ai_trim.Codec
use muka_ai_trim.Codec.Decoding.{Error}
use muka_ai_trim.Message.{RequestHead, encode_needs, protocol_version}
use muka_ai_trim.Store.{Config, Inner, find_entry, has, touch, insert, clear, block_of, read_all}
use muka_ai_trim.Compress.{CompressError, Unzstd}
use muka_ai_trim.Compress
use Prim.Native.String.{String}

abbrev pub max_instrs : ℕ
max_instrs = 200_000

abbrev pub max_repairs : ℕ
max_repairs = 4

abbrev pub max_body_bytes : ℕ
max_body_bytes = 536_870_912

pub data SessionError : Type 0 where
  proto : Error → SessionError
  link_closed digest_mismatch : SessionError
  rejected send_whole bad_payload io : String → SessionError
  compress : CompressError → SessionError
  unrebuildable : ℕ → SessionError

unfoldable pub fallback_to_whole : SessionError → Bool
fallback_to_whole (send_whole r) = true
fallback_to_whole (rejected r) = true
fallback_to_whole (unrebuildable n) = true
fallback_to_whole digest_mismatch = true
fallback_to_whole link_closed = true
fallback_to_whole (io e) = true
fallback_to_whole (proto e) = true
fallback_to_whole (bad_payload e) = false
fallback_to_whole (compress e) = false

unfoldable pub frame_charge : Frame → ℕ
frame_charge f = length f.payload + 12

unfoldable pub compressed_tag : Tag → Tag
compressed_tag program_tag = program_z
compressed_tag block_bytes = block_bytes_z
compressed_tag block_program = block_program_z
compressed_tag request_body = request_body_z
compressed_tag t = t

unfoldable pub plain_tag : Tag → Tag × Bool
plain_tag program_z = (program_tag, true)
plain_tag block_bytes_z = (block_bytes, true)
plain_tag block_program_z = (block_program, true)
plain_tag request_body_z = (request_body, true)
plain_tag t = (t, false)

-- `zstd_compress` is `Compress.compress`, and `zstd_decompress` is `Compress.decompress`.
unfoldable pub upload_frame : (List ℕ → ℕ → Option (List ℕ)) → Tag → ℕ → List ℕ → Bool → Frame
upload_frame bulk_compress tag stream payload false = record {
  tag = tag;
  stream = stream;
  payload = payload;
}
upload_frame bulk_compress tag stream payload true =
    elim (Compress.compress bulk_compress payload) [
      | none ↦ record { tag = tag; stream = stream; payload = payload }
      | some z ↦ record { tag = compressed_tag tag; stream = stream; payload = z }
    ]

unfoldable pub plain_payload : {D : Type 0} → Unzstd D → Frame → Result SessionError (Tag × List ℕ)
plain_payload unzstd f =
    if (plain_tag f.tag).1
    then elim (Compress.decompress unzstd.decoder unzstd.read_up_to f.payload) [
      | err e ↦ err (compress e)
      | ok p ↦ ok ((plain_tag f.tag).0, p)
    ]
    else ok ((plain_tag f.tag).0, f.payload)

pub data RebuildError : Type 0 where
  missing : List Digest → RebuildError
  mismatch : RebuildError

-- The store as `resolve` reads it.
unfoldable pub source : Inner → Digest → Option Block
source g d = elim (find_entry g.map d) [ none ↦ none | some e ↦ some (block_of d e) ]

abbrev pub of_resolve : Result ResolveError (List ℕ) → Result RebuildError (List ℕ)
of_resolve (ok b) = ok b
of_resolve (err (Resolve.missing d)) = err (missing (d ∷ []))
of_resolve (err (Resolve.too_deep n)) = err mismatch
of_resolve (err (Resolve.too_large n)) = err mismatch
of_resolve (err Resolve.corrupt) = err mismatch
of_resolve (err Resolve.out_of_fuel) = err mismatch

-- The body that the frames describe, before it is checked.
unfoldable pub assemble : Inner → RequestHead → List Instr → List ℕ → Result RebuildError (List ℕ)
assemble store head instrs literal =
    if head.split
    then elim (missing_blocks (source store) (has store) instrs max_instrs) [
      | [] ↦ of_resolve (resolve (source store) instrs ((head.body_len + 1) % u64_mod) 32)
      | d ∷ ds ↦ err (missing (d ∷ ds))
    ]
    else ok literal

-- The digests that `rebuild` looks up: `missing_blocks` looks up each one that it reports.
unfoldable pub rebuild_reads : Inner → RequestHead → List Instr → List Digest
rebuild_reads store head instrs =
    if head.split
    then elim (missing_blocks (source store) (has store) instrs max_instrs) [
      | [] ↦ resolve_reads (source store) instrs ((head.body_len + 1) % u64_mod) 32
      | d ∷ ds ↦ d ∷ ds
    ]
    else []

-- The check of the length and of the digest that the sender declared.
unfoldable pub is_declared : (List ℕ → List ℕ) → RequestHead → List ℕ → Bool
is_declared blake3 head body =
    (length body == head.body_len) && bytes_eq (digest_of blake3 raw body) head.body_digest

unfoldable pub rebuild :
    (List ℕ → List ℕ) → Inner → RequestHead → List Instr → List ℕ → Result RebuildError (List ℕ)
rebuild blake3 store head instrs literal = do
  body ← assemble store head instrs literal
  guard (is_declared blake3 head body) mismatch
  ok body

pub record Hello : Type 0 where
  pub version : ℕ
  pub peer_name : List ℕ
  pub proof : List ℕ
  pub blocks : ℕ

-- What the connection waits for: the next request frame, or blocks asked for in a repair round.
pub data Phase : Type 0 where
  serving : Phase
  repairing : ℕ → ℕ → Phase

pub record Remote : Type 0 where
  pub store : Inner
  pub head : Option RequestHead
  pub instrs : List Instr
  pub literal : List ℕ
  pub wire_in : ℕ
  pub greeted : Bool
  pub phase : Phase

abbrev pub new_remote : Inner → Remote
new_remote store = record {
  store = store;
  head = none;
  instrs = [];
  literal = [];
  wire_in = 0;
  greeted = false;
  phase = serving;
}

-- What a step puts on the link or hands to the upstream call.
pub data Effect : Type 0 where
  acked : Bool → Effect
  needed : ℕ → List ℕ → Effect
  failed : ℕ → Bool → Effect
  ponged : Effect
  forwarded : RequestHead → List ℕ → Effect

-- The state behind the step, what it emitted, and the error that ends the connection, if any.
pub record Outcome : Type 0 where
  pub state : Remote
  pub effects : List Effect
  pub ended : Option SessionError

module _ (cfg : Config) (blake3 : List ℕ → List ℕ) {D : Type 0} (unzstd : Unzstd D)
    (json_hello : List ℕ → Result String Hello) (json_head : List ℕ → Result String RequestHead)
    (proof : Option (List ℕ)) where
  abbrev pub goes_on : Remote → Outcome
  goes_on s = record { state = s; effects = []; ended = none }

  abbrev pub stops : Remote → List Effect → SessionError → Outcome
  stops s es e = record { state = s; effects = es; ended = some e }

  unfoldable pub proves : Hello → Bool
  proves h = elim proof [ none ↦ true | some expected ↦ bytes_eq h.proof expected ]

  unfoldable pub on_hello : Remote → Result String Hello → Outcome
  on_hello s (err e) = stops s [] (bad_payload e)
  on_hello s (ok h) =
      if not (h.version == protocol_version)
      then stops s (acked false ∷ []) (rejected "protocol version")
      else if proves h
      then record { state = record s { greeted = true }; effects = acked true ∷ []; ended = none }
      else stops s (acked false ∷ []) (rejected "bad pairing proof")

  abbrev pub needs_proof : Bool
  needs_proof = elim proof [ none ↦ false | some p ↦ true ]

  unfoldable pub on_request_head : Remote → Result String RequestHead → Outcome
  on_request_head s r =
      if not s.greeted && needs_proof
      then stops s [] (rejected "request before handshake")
      else elim r [
        | err e ↦ stops s [] (bad_payload e)
        | ok h ↦ goes_on (record s { head = some h })
      ]

  unfoldable pub on_program : Remote → Result Error (List Instr) → Outcome
  on_program s (err e) = stops s [] (proto e)
  on_program s (ok is) = goes_on (record s { instrs = is })

  unfoldable pub on_body : Remote → List ℕ → Outcome
  on_body s payload =
      if ltb max_body_bytes (length s.literal + length payload)
      then stops s [] (bad_payload "body too large")
      else goes_on (record s { literal = s.literal ++ payload })

  unfoldable pub keep_block : ℕ → Remote → Block → Remote
  keep_block now s b =
      if has s.store b.digest
      then record s { store = touch now b.digest s.store }
      else record s { store = (insert cfg blake3 now b s.store).0 }

  unfoldable pub on_block : ℕ → Remote → Result Error Block → Outcome
  on_block now s (err e) = stops s [] (proto e)
  on_block now s (ok b) = goes_on (keep_block now s b)

  -- A block during a repair is inserted, and not touched if it is there.
  unfoldable pub on_repair_block : ℕ → Remote → Result Error Block → Outcome
  on_repair_block now s (err e) = stops s [] (proto e)
  on_repair_block now s (ok b) =
      if has s.store b.digest
      then goes_on s
      else goes_on (record s { store = (insert cfg blake3 now b s.store).0 })

  -- The rest of the request: the upstream call, and the reset for the next one. A whole body is
  -- taken out of `literal` by `rebuild`.
  unfoldable pub after_rebuild :
      Remote → RequestHead → ℕ → ℕ → Result RebuildError (List ℕ) → Outcome
  after_rebuild s h stream repairs (ok body) = record {
    state = record s {
      head = none;
      instrs = [];
      literal = if h.split then s.literal else [];
      wire_in = 0;
      phase = serving;
    };
    effects = forwarded h body ∷ [];
    ended = none;
  }
  after_rebuild s h stream repairs (err (missing ds)) =
      if ltb max_repairs (repairs + 1)
      then stops s (failed stream true ∷ []) (unrebuildable repairs)
      else record {
        state = record s { phase = repairing (repairs + 1) stream };
        effects = needed stream (encode_needs ds) ∷ [];
        ended = none;
      }
  after_rebuild s h stream repairs (err mismatch) =
      stops s (failed stream false ∷ []) digest_mismatch

  -- The lookups of `rebuild` count as uses of the blocks; they change nothing that it reads.
  unfoldable pub on_end_of_body : ℕ → Remote → ℕ → ℕ → Outcome
  on_end_of_body now s stream repairs = elim s.head [
    | none ↦ stops s [] (send_whole "head never arrived")
    | some h ↦
        let read : Inner = read_all now (rebuild_reads s.store h s.instrs) s.store in
        after_rebuild (record s { store = read }) h stream repairs
          (rebuild blake3 s.store h s.instrs s.literal)
  ]

  abbrev pub with_payload :
      Remote → Result SessionError (Tag × List ℕ) → (List ℕ → Outcome) → Outcome
  with_payload s (err e) f = stops s [] e
  with_payload s (ok p) f = f p.1

  unfoldable pub serve_frame : ℕ → Remote → Frame → Tag → Outcome
  serve_frame now s f hello = on_hello s (json_hello f.payload)
  serve_frame now s f Codec.request_head = on_request_head s (json_head f.payload)
  serve_frame now s f program_tag =
      with_payload s (plain_payload unzstd f) (λ p. on_program s (decode_program p max_instrs))
  serve_frame now s f program_z =
      with_payload s (plain_payload unzstd f) (λ p. on_program s (decode_program p max_instrs))
  serve_frame now s f request_body = with_payload s (plain_payload unzstd f) (on_body s)
  serve_frame now s f request_body_z = with_payload s (plain_payload unzstd f) (on_body s)
  serve_frame now s f block_bytes =
      with_payload s (plain_payload unzstd f)
        (λ p. on_block now s (decode_block_frame p max_instrs))
  serve_frame now s f block_bytes_z =
      with_payload s (plain_payload unzstd f)
        (λ p. on_block now s (decode_block_frame p max_instrs))
  serve_frame now s f block_program =
      with_payload s (plain_payload unzstd f)
        (λ p. on_block now s (decode_block_frame p max_instrs))
  serve_frame now s f block_program_z =
      with_payload s (plain_payload unzstd f)
        (λ p. on_block now s (decode_block_frame p max_instrs))
  serve_frame now s f end_of_body = on_end_of_body now s f.stream 0
  serve_frame now s f ping = record { state = s; effects = ponged ∷ []; ended = none }
  serve_frame now s f reset = goes_on (record s { store = (clear s.store).0 })
  serve_frame now s f t = goes_on s

  unfoldable pub repair_frame : ℕ → ℕ → ℕ → Remote → Frame → Tag → Outcome
  repair_frame now repairs stream s f block_bytes =
      with_payload s (plain_payload unzstd f)
        (λ p. on_repair_block now s (decode_block_frame p max_instrs))
  repair_frame now repairs stream s f block_bytes_z =
      with_payload s (plain_payload unzstd f)
        (λ p. on_repair_block now s (decode_block_frame p max_instrs))
  repair_frame now repairs stream s f block_program =
      with_payload s (plain_payload unzstd f)
        (λ p. on_repair_block now s (decode_block_frame p max_instrs))
  repair_frame now repairs stream s f block_program_z =
      with_payload s (plain_payload unzstd f)
        (λ p. on_repair_block now s (decode_block_frame p max_instrs))
  repair_frame now repairs stream s f end_of_body = on_end_of_body now s stream repairs
  repair_frame now repairs stream s f t = stops s [] (bad_payload "unexpected frame during repair")

  unfoldable pub in_phase : ℕ → Phase → Remote → Frame → Outcome
  in_phase now serving s f = serve_frame now s f f.tag
  in_phase now (repairing repairs stream) s f = repair_frame now repairs stream s f f.tag

  -- One frame of the link, at the time `now`.
  unfoldable pub remote_step : ℕ → Remote → Frame → Outcome
  remote_step now s f =
      in_phase now s.phase (record s { wire_in = (s.wire_in + frame_charge f) % u64_mod }) f

  -- The frames until one ends the connection, and everything emitted.
  unfoldable pub remote_end : ℕ → Remote → List Frame → List Effect
  remote_end now s [] = []
  remote_end now s (f ∷ fs) =
      let o : Outcome = remote_step now s f in
      let later : List Effect = remote_end now o.state fs in
      elim o.ended [ none ↦ o.effects ++ later | some e ↦ o.effects ]
