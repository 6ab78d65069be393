-- ===== src/Codec/Frames.antt =====
-- `encode` and `decode` of a frame, in crates/muka-proto/src/codec.rs.
use muka_ai_trim.Common.{
  ℕ, ◌^◌, ◌≤◌, ◌≡◌, sym, ap, arith, true, false, List, [], ◌∷◌, ◌++◌, append-nil, append_assoc,
  length, Result, ok, ltb, ◌==◌, IsU64, ge→ltb, lt→ltb,
}
use muka_ai_trim.Varint.{Reader, CodecError, new, remaining, advance, u64_as}
use muka_ai_trim.Varint.Reading.{Reads, unread, unread-advance, remaining-unread, Reads-take}
use muka_ai_trim.Varint.RoundTrip.{uvarint-varint}
use muka_ai_trim.Varint.Writing.{varint, write_uvarint-varint}
use muka_ai_trim.Codec.{
  Frame, max_frame_payload, tag_u8, of_result, encode_frame, frame_tag_byte, frame_body, at_end,
  decode_frame,
}
use muka_ai_trim.Codec.Decoding.{
  Error, Decode, run, Reads-pure, Reads-lift, Reads-then, Reads-check-then, Reads-take_one,
}
use muka_ai_trim.Codec.Tags.{tag_from_u8-tag_u8}
use Prim.Native.String.{String}

pub u64_as-varint : (what : String) (v : ℕ) → IsU64 v → Reads (u64_as what) (varint v) v
unfolding u64_as
u64_as-varint what v h = record {
  run = λ r ys e. rw ((uvarint-varint v h).run r ys e, lt→ltb v (2 ^ 64) h);
}

pub Reads-of_result :
    {A : Type 0} {m : Result Error A} {a : A} → m ≡ ok a → Reads (of_result m) [] a
Reads-of_result {a} h = rw h (Reads-pure a)

-- A decoder that must meet the end of the input, on exactly what it reads.
pub run-at_end :
    {A : Type 0} (p : Decode A) (e : CodecError) (raw : List ℕ) (a : A)
    → Reads p raw a
    → run (at_end p e) (new raw) ≡ ok a
unfolding at_end new
run-at_end p e raw a h =
    let r : Reader = record { buf = raw; pos = 0 } in
    let all_read : unread r ≡ raw ++ [] = sym (append-nil raw) in
    let step = h.run r [] all_read in
    let done : (remaining (advance r (length raw)) == 0) ≡ true = ground (
      arith,
      remaining-unread (advance r (length raw)),
      ap length (unread-advance r raw [] all_read),
    ) in
    rw (step, done)

Reads-frame_tag_byte : (b : ℕ) → Reads frame_tag_byte (b ∷ []) b
unfolding frame_tag_byte
Reads-frame_tag_byte b = record {
  run = λ r ys e.
      let more : ltb (remaining r) 1 ≡ false =
        ge→ltb _ _ (omega (arith, remaining-unread r, ap length e)) in
      rw more ((Reads-take_one b).run r ys e);
}

-- A frame that the protocol may send: its stream is a `u64` and its payload is below the limit.
pub record IsSendable (f : Frame) : Type 0 where
  pub stream_u64 : IsU64 f.stream
  pub fits : length f.payload ≤ max_frame_payload

encode_frame-shape :
    (f : Frame)
    → encode_frame f
      ≡ (tag_u8 f.tag ∷ [])
        ++ ([] ++ (varint f.stream ++ (varint (length f.payload) ++ (f.payload ++ []))))
unfolding encode_frame
encode_frame-shape f = simp (write_uvarint-varint, append_assoc, append-nil)

frame_body-Reads : (f : Frame) → IsSendable f → Reads frame_body (encode_frame f) f
unfolding frame_body
frame_body-Reads f s = rw (encode_frame-shape f) (
    Reads-then _ (Reads-frame_tag_byte (tag_u8 f.tag)) (
      Reads-then _ (Reads-of_result (tag_from_u8-tag_u8 f.tag)) (
        Reads-then _ (Reads-lift (uvarint-varint f.stream s.stream_u64)) (
          Reads-then _
            (Reads-lift (u64_as-varint "frame length" (length f.payload) (omega (arith, s.fits))))
            (Reads-check-then _ _ _ (ground (arith, s.fits))
              (Reads-then _ (Reads-lift (Reads-take f.payload)) (Reads-pure _)))))))

-- `decode` reads back every sendable frame that `encode` wrote, whatever the tag.
pub decode_frame-encode_frame : (f : Frame) → IsSendable f → decode_frame (encode_frame f) ≡ ok f
unfolding decode_frame
decode_frame-encode_frame f s = run-at_end frame_body _ (encode_frame f) f (frame_body-Reads f s)
