-- ===== src/Session/Charges.antt =====
-- The charges of the frames that `local_end` writes (crates/muka-gateway/src/session.rs).
use muka_ai_trim.Compress
use muka_ai_trim.Common.{
  ℕ, ◌+◌, ◌≡◌, refl, ap, arith, Bool, true, false, Option, none, some, List, [], ◌∷◌, ◌++◌,
  if-holds, if◌then◌else◌, All, All-append, ◌==◌,
}
use muka_ai_trim.Codec
use muka_ai_trim.Codec.{Tag, Frame, ping, pong, need}
use muka_ai_trim.Message.{RequestHead}
use muka_ai_trim.Program.{Block, BlockBody, bytes, program}
use muka_ai_trim.Session.{frame_charge, compressed_tag, upload_frame}
use muka_ai_trim.Session.Local.{
  Payload, split, whole, Conn, LinkState, Wire, charge_all, request_frames, chunks, block_tag,
  block_frame, block_frames, body_frames, payload_frames, hello_frames,
}
use muka_ai_trim.Session.Reply.{Relayed, wrote, head_out, body_out, wrote_all}

abbrev pub is_pong : Tag → Bool
is_pong pong = true
is_pong t = false

-- The charges of what was written, the answers to `ping` left out.
unfoldable pub charge_of : List Relayed → ℕ
charge_of [] = 0
charge_of (wrote f ∷ rs) = (if is_pong f.tag then 0 else frame_charge f) + charge_of rs
charge_of (head_out h ∷ rs) = charge_of rs
charge_of (body_out b ∷ rs) = charge_of rs

abbrev pub IsCounted : Frame → Type 0
IsCounted f = is_pong f.tag ≡ false

abbrev pub NoPong : List Frame → Type 0
NoPong = All IsCounted

pub charge_of-wrote_all : (fs : List Frame) → NoPong fs → charge_of (wrote_all fs) ≡ charge_all fs
unfolding charge_of wrote_all charge_all
charge_of-wrote_all [] h = refl
charge_of-wrote_all (f ∷ fs) (h, hs) =
    rw h (ap (λ (n : ℕ). frame_charge f + n) (charge_of-wrote_all fs hs))

pub charge_of-append : (xs ys : List Relayed) → charge_of (xs ++ ys) ≡ charge_of xs + charge_of ys
unfolding charge_of
charge_of-append [] ys = omega arith
charge_of-append (wrote f ∷ xs) ys = omega (arith, charge_of-append xs ys)
charge_of-append (head_out h ∷ xs) ys = charge_of-append xs ys
charge_of-append (body_out b ∷ xs) ys = charge_of-append xs ys

compressed_tag-NoPong : (t : Tag) → is_pong t ≡ false → is_pong (compressed_tag t) ≡ false
unfolding compressed_tag
compressed_tag-NoPong Codec.program_tag h = refl
compressed_tag-NoPong Codec.block_bytes h = refl
compressed_tag-NoPong Codec.block_program h = refl
compressed_tag-NoPong Codec.request_body h = refl
compressed_tag-NoPong Codec.pong h = cc
compressed_tag-NoPong t h = refl

upload_frame-NoPong :
    (bulk_compress : List ℕ → ℕ → Option (List ℕ)) (t : Tag) (stream : ℕ) (p : List ℕ)
    (packed : Bool)
    → is_pong t ≡ false
    → is_pong (upload_frame bulk_compress t stream p packed).tag ≡ false
unfolding upload_frame
upload_frame-NoPong bulk_compress t stream p false h = h
upload_frame-NoPong bulk_compress t stream p true h = at_zstd (Compress.compress bulk_compress p)
  where
    at_zstd :
        (o : Option (List ℕ))
        → IsCounted (elim o [
          | none ↦ record { tag = t; stream = stream; payload = p }
          | some z ↦ record { tag = compressed_tag t; stream = stream; payload = z }
        ])
    at_zstd none = h
    at_zstd (some z) = compressed_tag-NoPong t h

pub block_frame-NoPong :
    (w : Wire) (b : Block) (stream : ℕ) (packed : Bool)
    → is_pong (block_frame w b stream packed).tag ≡ false
unfolding block_frame block_tag
block_frame-NoPong w b stream packed =
    upload_frame-NoPong w.bulk_compress (block_tag b.body) stream _ packed (at_body b.body)
  where
    at_body : (x : BlockBody) → is_pong (block_tag x) ≡ false
    at_body (bytes x) = refl
    at_body (program p) = refl

module _ (w : Wire) where
  block_frames-NoPong :
      (stream : ℕ) (packed : Bool) (bs : List Block) → NoPong (block_frames w stream packed bs)
  unfolding block_frames
  block_frames-NoPong stream packed [] = tt
  block_frames-NoPong stream packed (b ∷ bs) =
      (block_frame-NoPong w b stream packed, block_frames-NoPong stream packed bs)

  body_frames-NoPong :
      (stream : ℕ) (packed : Bool) (cs : List (List ℕ)) → NoPong (body_frames w stream packed cs)
  unfolding body_frames
  body_frames-NoPong stream packed [] = tt
  body_frames-NoPong stream packed (c ∷ cs) = (
    upload_frame-NoPong w.bulk_compress _ stream c packed refl,
    body_frames-NoPong stream packed cs,
  )

  payload_frames-NoPong :
      (stream : ℕ) (packed : Bool) (p : Payload) → NoPong (payload_frames w stream packed p)
  unfolding payload_frames
  payload_frames-NoPong stream packed (split out) = (
    upload_frame-NoPong w.bulk_compress _ stream _ packed refl,
    block_frames-NoPong stream packed out.to_push,
  )
  payload_frames-NoPong stream packed (whole body) = body_frames-NoPong stream packed (chunks body)

  pub request_frames-NoPong :
      (conn : Conn) (head : RequestHead) (p : Payload) (st : LinkState)
      → NoPong (request_frames w conn head p st)
  unfolding request_frames hello_frames
  request_frames-NoPong conn head p st =
      All-append _ _ _ (if-holds NoPong (conn.requests == 1) (refl, tt) tt)
        (refl, All-append _ _ _ (payload_frames-NoPong conn.id st.compress p) (refl, tt))
