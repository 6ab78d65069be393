-- ===== src/Io/Link.antt =====
-- What `write_frame` puts on a link, and `read_frame` behind it (crates/muka-proto/src/io.rs).
use muka_ai_trim.Common.{
  ℕ, zero, suc, ◌+◌, ◌/◌, ◌%◌, ◌^◌, ◌≤◌, ◌<◌, ◌≡◌, refl, sym, ap, arith, true, Option, none, some,
  List, [], ◌∷◌, ◌++◌, append-nil, append_assoc, length, length-append, ◌==◌, lt→ltb, ok, get_elem?,
  get_elem?-drop, IsU64, Bool-cases, inl, inr, >>=-eq-ok, ok-injective, bit_set,
}
use muka_ai_trim.Codec.{Frame, tag_u8, encode_frame}
use muka_ai_trim.Codec.Decoding.{Reads-pure, Reads-then, Reads-check-then}
use muka_ai_trim.Codec.Frames.{IsSendable, Reads-of_result}
use muka_ai_trim.Codec.Tags.{tag_from_u8-tag_u8}
use muka_ai_trim.Io.{
  put_byte, write_varint_into, write_frame, read_varint_loop, read_varint, read_payload, read_rest,
  read_frame,
}
use muka_ai_trim.Varint.{
  CodecError, eof, ok_or, Reader, advance, uvarint_loop, uvarint, write_loop, write_uvarint,
  add_group,
}
use muka_ai_trim.Varint.Reading.{Reads, unread, unread-advance, advance-advance, Reads-take}
use muka_ai_trim.Varint.RoundTrip.{uvarint-varint}
use muka_ai_trim.Varint.Writing.{varint, write_uvarint-varint}

put_byte_fits : (b : ℕ) (hdr : List ℕ) → length hdr < 12 → put_byte b hdr ≡ some (hdr ++ (b ∷ []))
unfolding put_byte
put_byte_fits b hdr h = rw (lt→ltb _ _ h) refl

write_varint_into-fits :
    (k : ℕ) (hdr : List ℕ) (v : ℕ)
    → length hdr + length (write_loop k v) ≤ 12
    → write_varint_into k hdr v ≡ some (hdr ++ write_loop k v)
unfolding write_varint_into write_loop
write_varint_into-fits zero hdr v h = ap some (sym (append-nil hdr))
write_varint_into-fits (suc k) hdr v h = elim (Bool-cases (v / 128 == 0)) [
  | inl last ↦ rw (last, put_byte_fits (v % 128) hdr (omega (arith, rw last at h))) refl
  | inr more ↦
      let room : length hdr + suc (length (write_loop k (v / 128))) ≤ 12 = rw more at h in
      let hdr' : List ℕ = hdr ++ ((v % 128 + 128) ∷ []) in
      let longer : length hdr' ≡ length hdr + 1 = length-append hdr _ in
      rw
        (
          more,
          put_byte_fits (v % 128 + 128) hdr (omega (arith, room)),
          write_varint_into-fits k hdr' (v / 128) (omega arith),
        )
        (ap some (append_assoc hdr _ _))
]

length-write_loop : (k j v : ℕ) → v < 128 ^ suc j → length (write_loop k v) ≤ suc j
unfolding write_loop
length-write_loop zero j v h = omega arith
length-write_loop (suc k) zero v h =
    let last : (v / 128 == 0) ≡ true = ground arith in rw last (omega arith)
length-write_loop (suc k) (suc j) v h = elim (Bool-cases (v / 128 == 0)) [
  | inl last ↦ rw last (omega arith)
  | inr more ↦ rw more (omega (arith, length-write_loop k j (v / 128) (omega arith)))
]

-- The frame's header fits its twelve bytes.
pub fits_header :
    (f : Frame)
    → f.stream < 2 ^ 49
    → IsSendable f
    → 1 + length (varint f.stream) + length (varint (length f.payload)) ≤ 12
unfolding varint
fits_header f small s = omega (
  arith,
  length-write_loop 10 6 f.stream (omega (arith, small)),
  length-write_loop 10 3 (length f.payload) (omega (arith, s.fits)),
)

write_frame-encode_frame :
    (f : Frame) → f.stream < 2 ^ 49 → IsSendable f → write_frame f ≡ some (encode_frame f)
unfolding write_frame encode_frame varint write_uvarint
write_frame-encode_frame f small s =
    let room = fits_header f small s in
    let hdr : List ℕ = (tag_u8 f.tag ∷ []) ++ varint f.stream in
    rw
      (
        write_frame,
        write_varint_into-fits 10 (tag_u8 f.tag ∷ []) f.stream (omega (arith, room)),
        write_varint_into-fits 10 hdr (length f.payload)
            (omega (arith, room, length-append (tag_u8 f.tag ∷ []) (varint f.stream))),
      )
      refl

some-ok_or : {A : Type 0} (o : Option A) (e : CodecError) (a : A) → ok_or o e ≡ ok a → o ≡ some a
some-ok_or none e a h = cc
some-ok_or (some b) e a h = ap some (ok-injective h)

-- What `uvarint` reads, `read_varint` reads.
read_varint_loop-uvarint_loop :
    (k i out : ℕ) (r : Reader) (q : ℕ × Reader)
    → uvarint_loop k i out r ≡ ok q
    → read_varint_loop k i out r ≡ ok q
unfolding uvarint_loop read_varint_loop
read_varint_loop-uvarint_loop zero i out r q h = cc
read_varint_loop-uvarint_loop (suc k) i out r q h =
    let (b, hb, h₁) = >>=-eq-ok (ok_or (get_elem? r.buf r.pos) (eof r.pos)) _ h in
    let (out', ho, h₂) = >>=-eq-ok (add_group i out b) _ h₁ in
    let byte : get_elem? r.buf r.pos ≡ some b = some-ok_or (get_elem? r.buf r.pos) _ b hb in
    elim (Bool-cases (bit_set b 7)) [
      | inl set ↦
          rw (read_varint_loop, byte, ho, set)
            (read_varint_loop-uvarint_loop k (i + 1) out' (advance r 1) q (rw set at h₂))
      | inr clear ↦
          let same : (out', advance r 1) ≡ q = ok-injective (rw clear at h₂) in
          rw (read_varint_loop, byte, ho, clear) (ap ok same)
    ]

read_varint-Reads : (v : ℕ) → IsU64 v → Reads read_varint (varint v) v
unfolding read_varint uvarint
read_varint-Reads v h = record {
  run = λ r ys e.
      read_varint_loop-uvarint_loop 10 0 0 r (v, advance r (length (varint v)))
        ((uvarint-varint v h).run r ys e);
}

read_payload-Reads : (xs : List ℕ) → Reads (read_payload (length xs)) xs xs
unfolding read_payload
read_payload-Reads xs = record { run = λ r ys e. rw ((Reads-take xs).run r ys e) refl }

read_rest-Reads :
    (f : Frame)
    → IsSendable f
    → Reads
        (read_rest (tag_u8 f.tag))
        ([] ++ (varint f.stream ++ (varint (length f.payload) ++ (f.payload ++ []))))
        (some f)
unfolding read_rest
read_rest-Reads f s = Reads-then _ (Reads-of_result (tag_from_u8-tag_u8 f.tag)) (
    Reads-then _ (read_varint-Reads f.stream s.stream_u64) (
      Reads-then _ (read_varint-Reads (length f.payload) (omega (arith, s.fits))) (
        Reads-check-then _ _ _ (ground (arith, s.fits))
          (Reads-then _ (read_payload-Reads f.payload) (Reads-pure (some f))))))

-- A frame behind its tag, on the wire.
after_tag : Frame → List ℕ
after_tag f = [] ++ (varint f.stream ++ (varint (length f.payload) ++ (f.payload ++ [])))

encode_frame-shape : (f : Frame) → encode_frame f ≡ tag_u8 f.tag ∷ after_tag f
unfolding encode_frame after_tag
encode_frame-shape f = simp (write_uvarint-varint, append_assoc, append-nil)

read_frame-Reads : (f : Frame) → IsSendable f → Reads read_frame (encode_frame f) (some f)
unfolding read_frame after_tag
read_frame-Reads f s = record {
  run = λ r ys e.
      let t : ℕ = tag_u8 f.tag in
      let e' : unread r ≡ t ∷ (after_tag f ++ ys) = rw (encode_frame-shape f) at e in
      let behind = unread-advance r (t ∷ []) (after_tag f ++ ys) e' in
      rw
        (
          read_frame,
          get_elem?-drop r.buf r.pos t (after_tag f ++ ys) e',
          (read_rest-Reads f s).run (advance r 1) ys behind,
        )
        (ap (λ (t : Reader). ok (some f, t))
          (advance-advance r 1 (length (after_tag f)) (length (encode_frame f))
            (omega (arith, ap length (encode_frame-shape f)))));
}

-- `write_frame` writes a frame whose stream is below 2^49 and whose payload is within the limit
-- without a panic, and from any place of a link where these bytes come next, `read_frame` reads the
-- same frame back and stops right behind it, whatever follows.
pub read_frame-write_frame :
    (f : Frame) (r : Reader) (more : List ℕ)
    → f.stream < 2 ^ 49
    → IsSendable f
    → unread r ≡ encode_frame f ++ more
    → (write_frame f ≡ some (encode_frame f))
      × (read_frame r ≡ ok (some f, advance r (length (encode_frame f))))
read_frame-write_frame f r more small s e =
    (write_frame-encode_frame f small s, (read_frame-Reads f s).run r more e)
