-- ===== src/Session/Local.antt =====
-- `local_end` of crates/muka-gateway/src/session.rs: the upload of a request, and the agent's side of
-- the connection as a step from one frame of the peer to the next. JSON is written and read by
-- parameters. Log lines are left out.
use muka_ai_trim.Common.{
  ℕ, zero, suc, ◌+◌, Bool, true, false, Option, none, some, List, [], ◌∷◌, ◌++◌, map, ◌==◌,
  if◌then◌else◌, length, take, drop, Result,
}
use muka_ai_trim.Bloom.{Bloom}
use muka_ai_trim.Codec.{
  Tag, Frame, encode_program, encode_block_frame, hello, request_head, program_tag, block_bytes,
  block_program, request_body, end_of_body,
}
use muka_ai_trim.Digest.{Digest}
use muka_ai_trim.Message.{RequestHead, protocol_version}
use muka_ai_trim.Metrics.{Counters}
use muka_ai_trim.Policy.{SplitStats}
use muka_ai_trim.Program.{Block, BlockBody, bytes, program}
use muka_ai_trim.Session.{Hello, frame_charge, upload_frame}
use muka_ai_trim.Splitter.{SplitOutput}
use muka_ai_trim.Store
use muka_ai_trim.Store.{Inner}
use Prim.Native.String.{String}

-- `256 * 1024`
abbrev pub relay_chunk : ℕ
relay_chunk = 262_144

pub data Payload : Type 0 where
  split : SplitOutput → Payload
  whole : List ℕ → Payload

unfoldable pub is_split : Payload → Bool
is_split (split o) = true
is_split (whole b) = false

unfoldable pub stats : Payload → Option SplitStats
stats (split o) = some o.stats
stats (whole b) = none

pub record Conn : Type 0 where
  pub id : ℕ
  pub requests : ℕ
  pub sent : ℕ

pub record HelloAck : Type 0 where
  pub version : ℕ
  pub accepted : Bool
  pub reason : Option String
  pub blocks : ℕ
  pub epoch : ℕ

pub record Fail : Type 0 where
  pub reason : String
  pub clear_presence : Bool

pub record ResponseHead : Type 0 where
  pub status : ℕ
  pub headers : List (String × String)
  pub content_length : Option ℕ
  pub rebuild_us : ℕ

pub record ResponseEnd : Type 0 where
  pub wire_bytes : ℕ
  pub body_bytes : ℕ
  pub upstream_us : ℕ
  pub stats : Option SplitStats
  pub repairs : ℕ
  pub store_blocks : ℕ
  pub store_bytes : ℕ

-- `presence` is the optimistic set and `bloom` the filter that the peer last sent.
pub record LinkState : Type 0 where
  pub store : Inner
  pub presence : List Digest
  pub bloom : Bloom
  pub counters : Counters
  pub peer_name : List ℕ
  pub compress : Bool
  pub proof : List ℕ

-- The writers and readers of the JSON payloads, and `zstd::bulk::compress`.
pub record Wire : Type 0 where
  pub bulk_compress : List ℕ → ℕ → Option (List ℕ)
  pub hello_json : Hello → List ℕ
  pub head_json : RequestHead → List ℕ
  pub ack_of : List ℕ → Result String HelloAck
  pub fail_of : List ℕ → Result String Fail
  pub head_of : List ℕ → Result String ResponseHead
  pub end_of : List ℕ → Result String ResponseEnd
  pub peer_stats_of : List ℕ → Result String (Unit {0})

-- `body.chunks(RELAY_CHUNK)`; the body's length is enough fuel.
unfoldable pub chunks_loop : ℕ → List ℕ → List (List ℕ)
chunks_loop zero xs = []
chunks_loop (suc fuel) [] = []
chunks_loop (suc fuel) (x ∷ xs) =
    take relay_chunk (x ∷ xs) ∷ chunks_loop fuel (drop relay_chunk (x ∷ xs))

unfoldable pub chunks : List ℕ → List (List ℕ)
chunks body = chunks_loop (length body) body

unfoldable pub charge_all : List Frame → ℕ
charge_all [] = 0
charge_all (f ∷ fs) = frame_charge f + charge_all fs

unfoldable pub block_tag : BlockBody → Tag
block_tag (bytes x) = block_bytes
block_tag (program p) = block_program

abbrev pub hello_of : LinkState → Hello
hello_of st = record {
  version = protocol_version;
  peer_name = st.peer_name;
  proof = st.proof;
  blocks = (Store.stats_of st.store).blocks;
}

module _ (w : Wire) where
  unfoldable pub block_frame : Block → ℕ → Bool → Frame
  block_frame b stream compress =
      upload_frame w.bulk_compress (block_tag b.body) stream (encode_block_frame b) compress

  -- `requests` counts this one.
  unfoldable pub hello_frames : Conn → LinkState → List Frame
  hello_frames conn st =
      if conn.requests == 1
      then record { tag = hello; stream = 0; payload = w.hello_json (hello_of st) } ∷ []
      else []

  abbrev pub head_frame : ℕ → RequestHead → Frame
  head_frame stream head = record {
    tag = request_head;
    stream = stream;
    payload = w.head_json head;
  }

  abbrev pub end_frame : ℕ → Frame
  end_frame stream = record { tag = end_of_body; stream = stream; payload = [] }

  unfoldable pub block_frames : ℕ → Bool → List Block → List Frame
  block_frames stream compress [] = []
  block_frames stream compress (b ∷ bs) =
      block_frame b stream compress ∷ block_frames stream compress bs

  unfoldable pub body_frames : ℕ → Bool → List (List ℕ) → List Frame
  body_frames stream compress [] = []
  body_frames stream compress (c ∷ cs) =
      upload_frame w.bulk_compress request_body stream c compress ∷ body_frames stream compress cs

  unfoldable pub payload_frames : ℕ → Bool → Payload → List Frame
  payload_frames stream compress (split out) =
      upload_frame w.bulk_compress program_tag stream (encode_program out.instrs) compress
      ∷ block_frames stream compress out.to_push
  payload_frames stream compress (whole body) = body_frames stream compress (chunks body)

  -- Everything written before the first frame is read.
  unfoldable pub request_frames : Conn → RequestHead → Payload → LinkState → List Frame
  request_frames conn head payload st =
      hello_frames conn st
      ++ (head_frame conn.id (record head { split = is_split payload })
          ∷ (payload_frames conn.id st.compress payload ++ (end_frame conn.id ∷ [])))

  abbrev pub pushed_digests : Payload → List Digest
  pushed_digests (split out) = map (λ (b : Block). b.digest) out.to_push
  pushed_digests (whole body) = []
