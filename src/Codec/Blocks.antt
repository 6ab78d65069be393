-- ===== src/Codec/Blocks.antt =====
-- `encode_block_frame` and `decode_block_frame` of crates/muka-proto/src/codec.rs.
use muka_ai_trim.Common.{
  ℕ, ◌+◌, ◌≤◌, ◌≡◌, refl, ◌∙◌, arith, false, List, [], ◌∷◌, ◌++◌, append-nil, append_assoc, length,
  length-append, ok, ltb, ◌==◌, ==_refl, IsU64, All, take, drop, take-append, drop-append, ge→ltb,
}
use muka_ai_trim.Digest.{Digest, digest_len, BlockKind, to_u8}
use muka_ai_trim.Digest.Hex.{from_u8-to_u8, to_u8-lt}
use muka_ai_trim.Program.{Instr, Block, BlockBody, bytes, program, raw_block, program_block}
use muka_ai_trim.Varint.{Reader, new, rest, advance}
use muka_ai_trim.Varint.Reading.{Reads, unread-advance}
use muka_ai_trim.Varint.RoundTrip.{uvarint-varint}
use muka_ai_trim.Varint.Writing.{varint, write_uvarint-varint, varint_shape}
use muka_ai_trim.Codec.{
  prog_mark, mark_of, encode_body, encode_block_body, encode_block_frame, kind_of_u8, block_head,
  decode_block_bytes, decode_block_program, decode_marked, decode_block_frame, encode_program,
}
use muka_ai_trim.Codec.Decoding.{Reads-pure, Reads-lift, Reads-then, Reads-take_one}
use muka_ai_trim.Codec.Frames.{Reads-of_result}
use muka_ai_trim.Codec.Programs.{IsWireInstr, decode_program-encode_program}

kind_of_u8-to_u8 : (k : BlockKind) → kind_of_u8 (to_u8 k) ≡ ok k
unfolding kind_of_u8
kind_of_u8-to_u8 k = rw (from_u8-to_u8 k)

head_bytes : BlockKind → ℕ → List ℕ
head_bytes k len = (to_u8 k ∷ []) ++ ([] ++ (varint len ++ []))

Reads-block_head :
    (k : BlockKind) (len : ℕ) → IsU64 len → Reads block_head (head_bytes k len) (k, len)
unfolding block_head head_bytes
Reads-block_head k len h = Reads-then _ (Reads-take_one (to_u8 k)) (
    Reads-then _ (Reads-of_result (kind_of_u8-to_u8 k))
      (Reads-then _ (Reads-lift (uvarint-varint len h)) (Reads-pure _)))

-- The head, run on a whole buffer, leaves the body to `rest`.
head_then_body :
    (k : BlockKind) (len : ℕ) (body : List ℕ)
    → IsU64 len
    → (r : Reader) × (block_head (new (head_bytes k len ++ body)) ≡ ok ((k, len), r))
      × ((rest r).0 ≡ body)
unfolding new rest
head_then_body k len body h =
    let r₀ : Reader = record { buf = head_bytes k len ++ body; pos = 0 } in
    (
      advance r₀ (length (head_bytes k len)),
      (Reads-block_head k len h).run r₀ body refl,
      unread-advance r₀ (head_bytes k len) body refl,
    )

decode_block_bytes-eq :
    (d : Digest) (k : BlockKind) (body : List ℕ)
    → IsU64 (length body)
    → decode_block_bytes d (head_bytes k (length body) ++ body) ≡ ok (raw_block d k body)
unfolding decode_block_bytes
decode_block_bytes-eq d k body h =
    let (r, e, left) = head_then_body k (length body) body h in rw (e, left, ==_refl (length body))

decode_block_program-eq :
    (d : Digest) (k : BlockKind) (len : ℕ) (is : List Instr) (max_instrs : ℕ)
    → IsU64 len
    → All IsWireInstr is
    → length is ≤ max_instrs
    → IsU64 max_instrs
    → decode_block_program d (head_bytes k len ++ encode_program is) max_instrs
      ≡ ok (program_block d k len is)
unfolding decode_block_program
decode_block_program-eq d k len is max_instrs h hs fits hm =
    let (r, e, left) = head_then_body k len (encode_program is) h in
    rw (e, left, decode_program-encode_program is max_instrs hs fits hm)

-- What the protocol may send: a digest of sixteen bytes, a `u64` length that is that of the bytes,
-- and a program that fits the wire and the receiver's limit.
abbrev pub IsWireBody : ℕ → ℕ → BlockBody → Type 0
IsWireBody max_instrs len (bytes b) = len ≡ length b
IsWireBody max_instrs len (program p) = All IsWireInstr p × (length p ≤ max_instrs)

pub record IsWireBlock (max_instrs : ℕ) (b : Block) : Type 0 where
  pub digest_16 : length b.digest ≡ digest_len
  pub len_u64 : IsU64 b.len
  pub body_ok : IsWireBody max_instrs b.len b.body

abbrev wire_body : BlockKind → ℕ → BlockBody → List ℕ
wire_body k len body = mark_of body ++ (head_bytes k len ++ encode_body body)

decode_marked-eq :
    (d : Digest) (k : BlockKind) (len : ℕ) (body : BlockBody) (max_instrs : ℕ)
    → IsU64 len
    → IsU64 max_instrs
    → IsWireBody max_instrs len body
    → decode_marked d (wire_body k len body) max_instrs
      ≡ ok (record { digest = d; kind = k; len = len; body = body })
unfolding decode_marked
decode_marked-eq d k len (bytes b) max_instrs h hm same = unmarked ∙ raw_eq
  where
    plain : (to_u8 k == prog_mark) ≡ false
    plain = ground (arith, to_u8-lt k)

    unmarked :
        decode_marked d (head_bytes k len ++ b) max_instrs
        ≡ decode_block_bytes d (head_bytes k len ++ b)
    unmarked = unfold head_bytes in rw plain

    raw_eq :
        decode_block_bytes d (head_bytes k len ++ b)
        ≡ ok (record { digest = d; kind = k; len = len; body = bytes b })
    raw_eq = rw same (unfold raw_block in decode_block_bytes-eq d k b (rw same at h))
decode_marked-eq d k len (program p) max_instrs h hm (hs, fits) =
    unfold program_block in decode_block_program-eq d k len p max_instrs h hs fits hm

encode_block_frame-shape :
    (b : Block) → encode_block_frame b ≡ b.digest ++ wire_body b.kind b.len b.body
unfolding encode_block_frame encode_block_body head_bytes
encode_block_frame-shape b = simp (write_uvarint-varint, append_assoc, append-nil)

length-wire_body :
    (k : BlockKind) (len : ℕ) (body : BlockBody) → IsU64 len → 2 ≤ length (wire_body k len body)
unfolding head_bytes
length-wire_body k len body h =
    let (_, lo, _) = varint_shape len h in
    omega (
      arith,
      length-append (mark_of body) (head_bytes k len ++ encode_body body),
      length-append (varint len ++ []) (encode_body body),
      length-append (varint len) [],
    )

-- `decode_block_frame` reads back every block that `encode_block_frame` wrote: digest, kind,
-- length and body, for both shapes, if the block fits the wire.
pub decode_block_frame-encode_block_frame :
    (b : Block) (max_instrs : ℕ)
    → IsU64 max_instrs
    → IsWireBlock max_instrs b
    → decode_block_frame (encode_block_frame b) max_instrs ≡ ok b
unfolding decode_block_frame
decode_block_frame-encode_block_frame b max_instrs hm w =
    let rest_bytes = wire_body b.kind b.len b.body in
    let front : take digest_len (b.digest ++ rest_bytes) ≡ b.digest =
      rw w.digest_16 at (take-append b.digest rest_bytes) in
    let back : drop digest_len (b.digest ++ rest_bytes) ≡ rest_bytes =
      rw w.digest_16 at (drop-append b.digest rest_bytes) in
    let long : ltb (length (b.digest ++ rest_bytes)) (digest_len + 2) ≡ false = ge→ltb _ _ (
      omega (
        arith,
        length-append b.digest rest_bytes,
        length-wire_body b.kind b.len b.body w.len_u64,
        w.digest_16,
      )) in
    rw (encode_block_frame-shape b, long, front, back)
      (decode_marked-eq b.digest b.kind b.len b.body max_instrs w.len_u64 hm w.body_ok)
