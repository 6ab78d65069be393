-- ===== src/Io.antt =====
-- crates/muka-proto/src/io.rs: frames on a link. A link is the list of its bytes: what was written, or
-- what is still to come, read from a position on. `none` is a panic: the header has twelve bytes.
pub mod Link
use muka_ai_trim.Common.{
  ℕ, zero, suc, ◌+◌, ◌*◌, ◌/◌, ◌%◌, ◌^◌, Bool, true, false, Option, none, some, List, [], ◌∷◌, ◌++◌,
  ltb, leb, ◌==◌, if◌then◌else◌, length, take, drop, get_elem?, Result, ok, err, map_err, low_bits,
  shr, bit_set,
}
use muka_ai_trim.Common.Outcome
use muka_ai_trim.Codec.{Frame, of_result, tag_u8, tag_from_u8, max_frame_payload}
use muka_ai_trim.Codec.Decoding.{Error, codec, too_large, io, Decode, ◌>>=◌, ◌>>◌, pure, check}
use muka_ai_trim.Varint.{
  Reader, remaining, advance, take_bytes, checked_shl, checked_add, ok_or, varint_too_long,
  add_group,
}

-- `dst[*at] = byte; *at += 1`, where `at` is the number of bytes written.
unfoldable pub put_byte : ℕ → List ℕ → Option (List ℕ)
put_byte byte hdr = if ltb (length hdr) 12 then some (hdr ++ (byte ∷ [])) else none

-- A `u64` has at most ten groups of seven bits.
unfoldable pub write_varint_into : ℕ → List ℕ → ℕ → Option (List ℕ)
write_varint_into zero hdr v = some hdr
write_varint_into (suc k) hdr v =
    let byte : ℕ = low_bits v 7 in
    let x : ℕ = shr v 7 in
    let more : Option (List ℕ) = elim (put_byte (byte + 0x80) hdr) [
      | none ↦ none
      | some hdr' ↦ write_varint_into k hdr' x
    ] in
    if x == 0 then put_byte byte hdr else more

unfoldable pub write_frame : Frame → Option (List ℕ)
write_frame f = elim (write_varint_into 10 (tag_u8 f.tag ∷ []) f.stream) [
  | none ↦ none
  | some hdr ↦ elim (write_varint_into 10 hdr (length f.payload)) [
    | none ↦ none
    | some hdr' ↦ some (hdr' ++ f.payload)
  ]
]

abbrev pub link_ended : Error
link_ended = io "early eof"

unfoldable pub read_varint_loop : ℕ → ℕ → ℕ → Decode ℕ
read_varint_loop zero i out r = err (codec varint_too_long)
read_varint_loop (suc k) i out r = elim (get_elem? r.buf r.pos) [
  | none ↦ err link_ended
  | some b ↦ Outcome.◌>>=◌ (map_err codec (add_group i out b)) (λ out'.
      let more = read_varint_loop k (i + 1) out' (advance r 1) in
      if bit_set b 7 then more else ok (out', advance r 1))
]

unfoldable pub read_varint : Decode ℕ
read_varint = read_varint_loop 10 0 0

-- The bytes of the payload, all or an error.
unfoldable pub read_payload : ℕ → Decode (List ℕ)
read_payload len r = map_err (λ e. link_ended) (take_bytes len r)

unfoldable pub read_rest : ℕ → Decode (Option Frame)
read_rest byte = do
  tag ← of_result (tag_from_u8 byte)
  stream ← read_varint
  len ← read_varint
  check (leb len max_frame_payload) (too_large len)
  payload ← read_payload len
  pure (some (record { tag = tag; stream = stream; payload = payload }))

-- A clean end of the link between two frames is no error.
unfoldable pub read_frame : Decode (Option Frame)
read_frame r = elim (get_elem? r.buf r.pos) [
  | none ↦ ok (none, r)
  | some byte ↦ read_rest byte (advance r 1)
]
