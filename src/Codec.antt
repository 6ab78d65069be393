-- ===== src/Codec.antt =====
-- crates/muka-proto/src/codec.rs: frames, programs and blocks on the wire.
pub mod Decoding
pub mod Tags
pub mod Frames
pub mod Programs
pub mod Blocks
use muka_ai_trim.Common.{
  ℕ, zero, suc, ◌+◌, ◌*◌, ◌/◌, ◌^◌, Bool, true, false, not, Option, none, some, List, [], ◌∷◌, ◌++◌,
  ltb, leb, ◌==◌, if◌then◌else◌, length, take, drop, Result, ok, err, shr,
}
use muka_ai_trim.Digest.{Digest, digest_len, BlockKind, to_u8, digest_of}
use muka_ai_trim.Digest
use muka_ai_trim.Common.Outcome
use muka_ai_trim.Program.{
  Instr, lit, ref, BlockBody, bytes, program, Block, raw_block, program_block,
}
use muka_ai_trim.Varint.{
  Reader, CodecError, eof, bad, new, remaining, write_uvarint, uvarint, u64_as, take_bytes, rest,
}
use muka_ai_trim.Codec.Decoding.{
  Error, codec, too_large, unknown_tag, unknown_kind, Decode, ◌>>=◌, ◌>>◌, pure, lift, check, first,
  take_one, run,
}

-- `64 << 20`
abbrev pub max_frame_payload : ℕ
max_frame_payload = 67_108_864

pub data Tag : Type 0 where
  hello hello_ack request_head program_tag block_bytes block_program need bloom : Tag
  response_head response_body response_end peer_stats ping pong reset cancel : Tag
  end_of_body request_body fail program_z block_bytes_z block_program_z request_body_z : Tag

-- `tag as u8`
unfoldable pub tag_u8 : Tag → ℕ
tag_u8 hello = 1
tag_u8 hello_ack = 2
tag_u8 request_head = 3
tag_u8 program_tag = 4
tag_u8 block_bytes = 5
tag_u8 block_program = 6
tag_u8 need = 7
tag_u8 bloom = 8
tag_u8 response_head = 9
tag_u8 response_body = 10
tag_u8 response_end = 11
tag_u8 peer_stats = 12
tag_u8 ping = 13
tag_u8 pong = 14
tag_u8 reset = 15
tag_u8 cancel = 16
tag_u8 end_of_body = 17
tag_u8 request_body = 18
tag_u8 fail = 19
tag_u8 program_z = 20
tag_u8 block_bytes_z = 21
tag_u8 block_program_z = 22
tag_u8 request_body_z = 23

abbrev tag_table : ℕ → Option Tag
tag_table v =
    if v == 1
    then some hello
    else if v == 2
    then some hello_ack
    else if v == 3
    then some request_head
    else if v == 4
    then some program_tag
    else if v == 5
    then some block_bytes
    else if v == 6
    then some block_program
    else if v == 7
    then some need
    else if v == 8
    then some bloom
    else if v == 9
    then some response_head
    else if v == 10
    then some response_body
    else if v == 11
    then some response_end
    else if v == 12
    then some peer_stats
    else if v == 13
    then some ping
    else if v == 14
    then some pong
    else if v == 15
    then some reset
    else if v == 16
    then some cancel
    else if v == 17
    then some end_of_body
    else if v == 18
    then some request_body
    else if v == 19
    then some fail
    else if v == 20
    then some program_z
    else if v == 21
    then some block_bytes_z
    else if v == 22
    then some block_program_z
    else if v == 23
    then some request_body_z
    else none

unfoldable pub tag_from_u8 : ℕ → Result Error Tag
tag_from_u8 v = elim (tag_table v) [ none ↦ err (unknown_tag v) | some t ↦ ok t ]

pub record Frame : Type 0 where
  pub tag : Tag
  pub stream : ℕ
  pub payload : List ℕ

unfoldable pub encode_frame : Frame → List ℕ
encode_frame f =
    write_uvarint (write_uvarint (tag_u8 f.tag ∷ []) f.stream) (length f.payload) ++ f.payload

-- A `u64` has at most ten groups of seven bits, so ten rounds are enough.
unfoldable pub varint_len_loop : ℕ → ℕ → ℕ → ℕ
varint_len_loop zero x n = n
varint_len_loop (suc k) x n =
    let more = varint_len_loop k (shr x 7) (n + 1) in if x == 0 then n else more

unfoldable pub varint_len : ℕ → ℕ
varint_len v = varint_len_loop 10 (shr v 7) 1

unfoldable pub frame_len : ℕ → ℕ → ℕ
frame_len stream payload_len = 1 + varint_len stream + varint_len payload_len + payload_len

abbrev pub of_result : {A : Type 0} → Result Error A → Decode A
of_result (ok a) r = ok (a, r)
of_result (err e) r = err e

-- `r.take(1).map_err(|_| Eof(0))?[0]`
unfoldable pub frame_tag_byte : Decode ℕ
frame_tag_byte r = if ltb (remaining r) 1 then err (codec (eof 0)) else take_one r

unfoldable pub frame_body : Decode Frame
frame_body = do
  b ← frame_tag_byte
  tag ← of_result (tag_from_u8 b)
  stream ← lift uvarint
  len ← lift (u64_as "frame length")
  check (leb len max_frame_payload) (too_large len)
  payload ← lift (take_bytes len)
  pure (record { tag = tag; stream = stream; payload = payload })

-- The last check of a decoder: nothing is left.
abbrev pub ended : {A : Type 0} → CodecError → Result Error (A × Reader) → Result Error (A × Reader)
ended e (err x) = err x
ended e (ok (a, r)) = if remaining r == 0 then ok (a, r) else err (codec e)

unfoldable pub at_end : {A : Type 0} → Decode A → CodecError → Decode A
at_end p e r = ended e (p r)

unfoldable pub decode_frame : List ℕ → Result Error Frame
decode_frame raw = run (at_end frame_body (bad "trailing frame bytes")) (new raw)

unfoldable pub encode_instr : List ℕ → Instr → List ℕ
encode_instr out (lit b) = write_uvarint (out ++ (0 ∷ [])) (length b) ++ b
encode_instr out (ref digest len) = write_uvarint ((out ++ (1 ∷ [])) ++ digest) len

unfoldable pub encode_instrs : List ℕ → List Instr → List ℕ
encode_instrs out [] = out
encode_instrs out (i ∷ is) = encode_instrs (encode_instr out i) is

unfoldable pub encode_program : List Instr → List ℕ
encode_program instrs = encode_instrs (write_uvarint [] (length instrs)) instrs

unfoldable pub decode_lit : Decode Instr
decode_lit = do
  len ← lift (u64_as "literal length")
  check (leb len max_frame_payload) (too_large len)
  b ← lift (take_bytes len)
  pure (lit b)

unfoldable pub decode_ref : Decode Instr
decode_ref = do d ← lift (take_bytes digest_len); len ← lift uvarint; pure (ref d len)

unfoldable pub decode_instr : ℕ → Decode Instr
decode_instr kind = if kind == 0 then decode_lit else if kind == 1 then decode_ref else λ r.
    err (codec (bad "unknown instr tag"))

unfoldable pub decode_instrs : ℕ → List Instr → Decode (List Instr)
decode_instrs zero out = pure out
decode_instrs (suc n) out = do
  kind ← take_one
  i ← decode_instr kind
  decode_instrs n (out ++ (i ∷ []))

unfoldable pub program_body : ℕ → Decode (List Instr)
program_body max_instrs = do
  n ← lift (u64_as "instruction count")
  check (leb n max_instrs) (too_large n)
  decode_instrs n []

unfoldable pub decode_program : List ℕ → ℕ → Result Error (List Instr)
decode_program raw max_instrs =
    run (at_end (program_body max_instrs) (bad "trailing program bytes")) (new raw)

abbrev pub prog_mark : ℕ
prog_mark = 0xff

abbrev pub mark_of : BlockBody → List ℕ
mark_of (bytes b) = []
mark_of (program p) = prog_mark ∷ []

abbrev pub encode_body : BlockBody → List ℕ
encode_body (bytes b) = b
encode_body (program p) = encode_program p

unfoldable pub encode_block_body : Block → List ℕ
encode_block_body b =
    write_uvarint (mark_of b.body ++ (to_u8 b.kind ∷ [])) b.len ++ encode_body b.body

unfoldable pub encode_block_frame : Block → List ℕ
encode_block_frame b = b.digest ++ encode_block_body b

unfoldable pub encode_block_head : Block → List ℕ
encode_block_head b = write_uvarint (to_u8 b.kind ∷ []) b.len

abbrev pub known_kind : Option BlockKind → Result Error BlockKind
known_kind none = err (unknown_kind 0)
known_kind (some k) = ok k

unfoldable pub kind_of_u8 : ℕ → Result Error BlockKind
kind_of_u8 v = known_kind (Digest.from_u8 v)

unfoldable pub block_head : Decode (BlockKind × ℕ)
block_head = do b ← take_one; kind ← of_result (kind_of_u8 b); len ← lift uvarint; pure (kind, len)

unfoldable pub decode_block_bytes : Digest → List ℕ → Result Error Block
decode_block_bytes digest raw = Outcome.◌>>=◌ (block_head (new raw)) λ q.
    if length (rest q.1).0 == q.0.1
    then ok (raw_block digest q.0.0 (rest q.1).0)
    else err (codec (bad "block length mismatch"))

unfoldable pub decode_block_program : Digest → List ℕ → ℕ → Result Error Block
decode_block_program digest raw max_instrs = Outcome.◌>>=◌ (block_head (new raw)) λ q.
    Outcome.◌>>=◌ (decode_program (rest q.1).0 max_instrs)
      λ instrs. ok (program_block digest q.0.0 q.0.1 instrs)

unfoldable pub decode_marked : Digest → List ℕ → ℕ → Result Error Block
decode_marked digest [] max_instrs = decode_block_bytes digest []
decode_marked digest (b ∷ body) max_instrs =
    if b == prog_mark
    then decode_block_program digest body max_instrs
    else decode_block_bytes digest (b ∷ body)

unfoldable pub decode_block_frame : List ℕ → ℕ → Result Error Block
decode_block_frame raw max_instrs =
    if ltb (length raw) (digest_len + 2)
    then err (codec (bad "short block frame"))
    else decode_marked (take digest_len raw) (drop digest_len raw) max_instrs

unfoldable pub block_digest : (List ℕ → List ℕ) → Block → Digest
block_digest blake3 b = elim b.body [ bytes x ↦ digest_of blake3 b.kind x | program p ↦ b.digest ]
