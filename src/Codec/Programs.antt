-- ===== src/Codec/Programs.antt =====
-- `encode_program` and `decode_program` of crates/muka-proto/src/codec.rs.
use muka_ai_trim.Common.{
  ℕ, ◌≤◌, ◌≡◌, sym, ap, ◌∙◌, arith, List, [], ◌∷◌, ◌++◌, append-nil, append_assoc, length, ok,
  IsU64, All,
}
use muka_ai_trim.Digest.{digest_len}
use muka_ai_trim.Program.{Instr, lit, ref}
use muka_ai_trim.Varint.Reading.{Reads, Reads-take}
use muka_ai_trim.Varint.RoundTrip.{uvarint-varint}
use muka_ai_trim.Varint.Writing.{varint, write_uvarint-varint}
use muka_ai_trim.Codec.{
  max_frame_payload, encode_instr, encode_instrs, encode_program, decode_lit, decode_ref,
  decode_instr, decode_instrs, program_body, decode_program,
}
use muka_ai_trim.Codec.Decoding.{
  Reads-pure, Reads-lift, Reads-then, Reads-check-then, Reads-take_one,
}
use muka_ai_trim.Codec.Frames.{u64_as-varint, run-at_end}

-- What the wire can carry: literals below the payload limit, digests of sixteen bytes and `u64`
-- lengths.
abbrev pub IsWireInstr : Instr → Type 0
IsWireInstr (lit b) = length b ≤ max_frame_payload
IsWireInstr (ref d n) = (length d ≡ digest_len) × IsU64 n

wire_kind : Instr → ℕ
wire_kind (lit b) = 0
wire_kind (ref d n) = 1

wire_rest : Instr → List ℕ
wire_rest (lit b) = varint (length b) ++ (b ++ [])
wire_rest (ref d n) = d ++ (varint n ++ [])

wire_instrs : List Instr → List ℕ
wire_instrs [] = []
wire_instrs (i ∷ is) = (wire_kind i ∷ []) ++ (wire_rest i ++ wire_instrs is)

encode_instr-shape :
    (out : List ℕ) (i : Instr) → encode_instr out i ≡ out ++ ((wire_kind i ∷ []) ++ wire_rest i)
unfolding encode_instr wire_kind wire_rest
encode_instr-shape out (lit b) = simp (write_uvarint-varint, append_assoc, append-nil)
encode_instr-shape out (ref d n) = simp (write_uvarint-varint, append_assoc, append-nil)

encode_instrs-shape :
    (out : List ℕ) (is : List Instr) → encode_instrs out is ≡ out ++ wire_instrs is
unfolding encode_instrs wire_instrs
encode_instrs-shape out [] = sym (append-nil out)
encode_instrs-shape out (i ∷ is) =
    encode_instrs-shape (encode_instr out i) is ∙ simp (encode_instr-shape, append_assoc)

Reads-decode_instr :
    (i : Instr) → IsWireInstr i → Reads (decode_instr (wire_kind i)) (wire_rest i) i
unfolding decode_instr wire_kind wire_rest decode_lit decode_ref
Reads-decode_instr (lit b) h =
    Reads-then _ (Reads-lift (u64_as-varint "literal length" (length b) (omega arith))) (
      Reads-check-then _ _ _ (ground arith)
        (Reads-then _ (Reads-lift (Reads-take b)) (Reads-pure _)))
Reads-decode_instr (ref d n) (hd, hn) =
    Reads-then _ (rw hd at (Reads-lift (Reads-take d)))
      (Reads-then _ (Reads-lift (uvarint-varint n hn)) (Reads-pure _))

Reads-decode_instrs :
    (is out : List Instr)
    → All IsWireInstr is
    → Reads (decode_instrs (length is) out) (wire_instrs is) (out ++ is)
unfolding decode_instrs wire_instrs
Reads-decode_instrs [] out h = rw append-nil (Reads-pure out)
Reads-decode_instrs (i ∷ is) out (h, hs) = Reads-then _ (Reads-take_one (wire_kind i)) (
    Reads-then _ (Reads-decode_instr i h)
      (rw append_assoc at (Reads-decode_instrs is (out ++ (i ∷ [])) hs)))

encode_program-shape : (is : List Instr) → encode_program is ≡ varint (length is) ++ wire_instrs is
unfolding encode_program
encode_program-shape is =
    encode_instrs-shape _ is
    ∙ ap (λ (t : List ℕ). t ++ wire_instrs is) (write_uvarint-varint [] (length is))

program_body-Reads :
    (is : List Instr) (max_instrs : ℕ)
    → All IsWireInstr is
    → length is ≤ max_instrs
    → IsU64 max_instrs
    → Reads (program_body max_instrs) (encode_program is) is
unfolding program_body
program_body-Reads is max_instrs h fits hm = rw (encode_program-shape is) (
    Reads-then _ (Reads-lift (u64_as-varint "instruction count" (length is) (omega arith)))
      (Reads-check-then _ _ _ (ground arith) (Reads-decode_instrs is [] h)))

-- `decode_program` reads back every program that `encode_program` wrote, if its instructions fit
-- the wire and their number is within the receiver's limit.
pub decode_program-encode_program :
    (is : List Instr) (max_instrs : ℕ)
    → All IsWireInstr is
    → length is ≤ max_instrs
    → IsU64 max_instrs
    → decode_program (encode_program is) max_instrs ≡ ok is
unfolding decode_program
decode_program-encode_program is max_instrs h fits hm =
    run-at_end (program_body max_instrs) _ (encode_program is) is
      (program_body-Reads is max_instrs h fits hm)
