-- ===== src/Session/Handled.antt =====
-- What the peer does with an upload frame, compressed or not (crates/muka-gateway/src/session.rs).
use muka_ai_trim.Common.{
  ℕ, ◌≡◌, ◌≤◌, length, refl, Bool, true, false, Option, none, some, List, Result, ok,
}
use muka_ai_trim.Codec.{Frame, Tag, decode_program, decode_block_frame}
use muka_ai_trim.Message.{RequestHead}
use muka_ai_trim.Session.{
  Hello, Remote, Outcome, max_instrs, upload_frame, plain_payload, compressed_tag, plain_tag,
  on_program, on_body, on_block, serve_frame,
}
use muka_ai_trim.Session.Local.{Wire}
use muka_ai_trim.Session.Upload.{
  IsUpload, of_program, of_block_bytes, of_block_program, of_request_body,
}
use muka_ai_trim.Store.{Config}
use muka_ai_trim.Compress.{Unzstd, IsPacking, max_decompressed}
use muka_ai_trim.Compress
use muka_ai_trim.Compress.Limits.{decompress-compress_small}
use Prim.Native.String.{String}

module _ (cfg : Config) (blake3 : List ℕ → List ℕ) {D : Type 0} (unzstd : Unzstd D)
    (json_hello : List ℕ → Result String Hello) (json_head : List ℕ → Result String RequestHead)
    (proof : Option (List ℕ)) (w : Wire) (now : ℕ)
    (packing : IsPacking w.bulk_compress unzstd) where
  -- What the peer does with the payload of an upload frame.
  abbrev pub handled : {tag : Tag} → IsUpload tag → Remote → List ℕ → Outcome
  handled of_program s p =
      on_program cfg blake3 unzstd json_hello json_head proof s (decode_program p max_instrs)
  handled of_block_bytes s p =
      on_block cfg blake3 unzstd json_hello json_head proof now s (decode_block_frame p max_instrs)
  handled of_block_program s p =
      on_block cfg blake3 unzstd json_hello json_head proof now s (decode_block_frame p max_instrs)
  handled of_request_body s p = on_body cfg blake3 unzstd json_hello json_head proof s p

  abbrev pub serve : Remote → Frame → Outcome
  serve s f = serve_frame cfg blake3 unzstd json_hello json_head proof now s f f.tag

  plain-handled :
      (tag : Tag) (u : IsUpload tag) (s : Remote) (stream : ℕ) (p : List ℕ)
      → serve s (record { tag = tag; stream = stream; payload = p }) ≡ handled u s p
  unfolding serve_frame plain_payload plain_tag
  plain-handled _ of_program s stream p = refl
  plain-handled _ of_block_bytes s stream p = refl
  plain-handled _ of_block_program s stream p = refl
  plain-handled _ of_request_body s stream p = refl

  packed-handled :
      (tag : Tag) (u : IsUpload tag) (s : Remote) (stream : ℕ) (p z : List ℕ)
      → Compress.decompress unzstd.decoder unzstd.read_up_to z ≡ ok p
      → serve s (record { tag = compressed_tag tag; stream = stream; payload = z }) ≡ handled u s p
  unfolding serve_frame plain_payload plain_tag compressed_tag
  packed-handled _ of_program s stream p z h = rw h refl
  packed-handled _ of_block_bytes s stream p z h = rw h refl
  packed-handled _ of_block_program s stream p z h = rw h refl
  packed-handled _ of_request_body s stream p z h = rw h refl

  -- An upload frame of at most 64 MiB, compressed or not, is handled by its tag.
  pub upload-handled :
      (tag : Tag) (u : IsUpload tag) (s : Remote) (stream : ℕ) (p : List ℕ) (packed : Bool)
      → length p ≤ max_decompressed
      → serve s (upload_frame w.bulk_compress tag stream p packed) ≡ handled u s p
  unfolding upload_frame
  upload-handled tag u s stream p false small = plain-handled tag u s stream p
  upload-handled tag u s stream p true small =
      at_zstd (Compress.compress w.bulk_compress p)
        (λ z. decompress-compress_small w.bulk_compress unzstd packing p z small)
    where
      at_zstd :
          (o : Option (List ℕ))
          → ((z : List ℕ)
              → o ≡ some z
              → Compress.decompress unzstd.decoder unzstd.read_up_to z ≡ ok p)
          → serve s (elim o [
            | none ↦ record { tag = tag; stream = stream; payload = p }
            | some z ↦ record { tag = compressed_tag tag; stream = stream; payload = z }
          ])
            ≡ handled u s p
      at_zstd none h = plain-handled tag u s stream p
      at_zstd (some z) h = packed-handled tag u s stream p z (h z refl)
