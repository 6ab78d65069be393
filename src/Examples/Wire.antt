-- ===== src/Examples/Wire.antt =====
-- The codecs at concrete frames, programs, blocks and numbers.
use muka_ai_trim.Common.{
  ℕ, ◌+◌, List, [], ◌∷◌, ◌++◌, ◌≡◌, refl, ok, arith, length, IsByte, All, ◌*◌, ◌^◌, ◌%◌,
}
use muka_ai_trim.Digest.{Digest, raw}
use muka_ai_trim.Program.{Instr, lit, ref, Block, program, normalize}
use muka_ai_trim.Program.Meaning.{expand}
use muka_ai_trim.Program.Normal.{expand-normalize, normalize-IsNormal, IsNormal}
use muka_ai_trim.Varint.{write_uvarint, uvarint}
use muka_ai_trim.Varint.RoundTrip.{uvarint-write_uvarint}
use muka_ai_trim.Varint.Decode.{uvarint-ten_bytes, groups}
use muka_ai_trim.Codec.{
  Frame, encode_frame, decode_frame, encode_program, decode_program, encode_block_frame,
  decode_block_frame, program_tag,
}
use muka_ai_trim.Codec.Frames.{decode_frame-encode_frame}
use muka_ai_trim.Codec.Programs.{decode_program-encode_program}
use muka_ai_trim.Codec.Blocks.{decode_block_frame-encode_block_frame}

abbrev sixteen : Digest
sixteen = 1 ∷ 2 ∷ 3 ∷ 4 ∷ 5 ∷ 6 ∷ 7 ∷ 8 ∷ 9 ∷ 10 ∷ 11 ∷ 12 ∷ 13 ∷ 14 ∷ 15 ∷ 16 ∷ []

abbrev sent : List Instr
sent = lit (104 ∷ 105 ∷ []) ∷ ref sixteen 300 ∷ []

abbrev a_frame : Frame
a_frame = record { tag = program_tag; stream = 7; payload = 1 ∷ 2 ∷ 3 ∷ [] }

abbrev a_block : Block
a_block = record { digest = sixteen; kind = raw; len = 302; body = program sent }

sixteen-IsByte : All IsByte sixteen
sixteen-IsByte = omega arith

frame_example : decode_frame (encode_frame a_frame) ≡ ok a_frame
frame_example =
    decode_frame-encode_frame a_frame (record { stream_u64 = omega arith; fits = omega arith })

program_example : decode_program (encode_program sent) 10 ≡ ok sent
program_example =
    decode_program-encode_program sent 10 (omega arith, ((refl, omega arith), tt)) (omega arith)
      (omega arith)

block_example : decode_block_frame (encode_block_frame a_block) 10 ≡ ok a_block
block_example = decode_block_frame-encode_block_frame a_block 10 (omega arith) (record {
  digest_16 = refl;
  len_u64 = omega arith;
  body_ok = ((omega arith, ((refl, omega arith), tt)), omega arith);
})

abbrev nine : List ℕ
nine = 129 ∷ 130 ∷ 132 ∷ 136 ∷ 144 ∷ 160 ∷ 192 ∷ 129 ∷ 255 ∷ []

uvarint_example :
    uvarint (record { buf = write_uvarint (9 ∷ []) 300 ++ (5 ∷ []); pos = 1 })
    ≡ ok (
      300,
      record {
        buf = write_uvarint (9 ∷ []) 300 ++ (5 ∷ []);
        pos = length (write_uvarint (9 ∷ []) 300);
      },
    )
uvarint_example = uvarint-write_uvarint (9 ∷ []) (5 ∷ []) 300 (omega arith)

-- Nine bytes that carry one bit each, between others, and a tenth with its upper bits set.
uvarint-ten_bytes_example :
    uvarint (record { buf = (5 ∷ []) ++ ((nine ++ (127 ∷ [])) ++ (6 ∷ [])); pos = 1 })
    ≡ ok (
      groups nine + 127 % 2 * 2 ^ 63,
      record { buf = (5 ∷ []) ++ ((nine ++ (127 ∷ [])) ++ (6 ∷ [])); pos = 1 + 10 },
    )
uvarint-ten_bytes_example =
    uvarint-ten_bytes (5 ∷ []) nine (6 ∷ []) 127 (omega arith) refl (omega arith)

expand_example : expand (λ d. d) (normalize (lit [] ∷ sent)) ≡ expand (λ d. d) (lit [] ∷ sent)
expand_example = expand-normalize (λ d. d) (lit [] ∷ sent)

normalize-IsNormal_example : IsNormal (normalize (lit [] ∷ sent))
normalize-IsNormal_example = normalize-IsNormal (lit [] ∷ sent)
