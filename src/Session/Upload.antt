-- ===== src/Session/Upload.antt =====
-- `upload_frame` and `plain_payload` of crates/muka-gateway/src/session.rs.
use muka_ai_trim.Common.{
  ℕ, Bool, true, false, Option, none, some, List, ◌≡◌, refl, sym, subst, ◌≤◌, length, Result, ok,
  err,
}
use muka_ai_trim.Codec.{Tag, program_tag, block_bytes, block_program, request_body}
use muka_ai_trim.Session.{
  SessionError, compressed_tag, plain_tag, upload_frame, plain_payload, compress,
}
use muka_ai_trim.Compress.{CompressError, Unzstd, IsPacking, max_decompressed}
use muka_ai_trim.Compress
use muka_ai_trim.Compress.Limits.{decompress-compress_small}

-- The four kinds of frame that a request is uploaded in.
pub data IsUpload : Tag → Type 0 where
  of_program : IsUpload program_tag
  of_block_bytes : IsUpload block_bytes
  of_block_program : IsUpload block_program
  of_request_body : IsUpload request_body

unpacked :
    {tag : Tag} {r : Result CompressError (List ℕ)} {payload : List ℕ}
    → r ≡ ok payload
    → ◌≡◌ {A = Result SessionError (Tag × List ℕ)}
        (elim r [ err e ↦ err (compress e) | ok p ↦ ok (tag, p) ])
        (ok (tag, payload))
unpacked {tag} {r} {payload} h = subst (λ r. at r) (sym h) refl
  where
    at : Result CompressError (List ℕ) → Type 0
    at r =
        ◌≡◌ {A = Result SessionError (Tag × List ℕ)}
          (elim r [ err e ↦ err (compress e) | ok p ↦ ok (tag, p) ]) (ok (tag, payload))

compressed_tag-plain :
    {D : Type 0} (unzstd : Unzstd D) (tag : Tag) (stream : ℕ) (z payload : List ℕ)
    → IsUpload tag
    → Compress.decompress unzstd.decoder unzstd.read_up_to z ≡ ok payload
    → plain_payload unzstd (record { tag = compressed_tag tag; stream = stream; payload = z })
      ≡ ok (tag, payload)
unfolding compressed_tag plain_tag plain_payload
compressed_tag-plain unzstd _ stream z payload of_program h = unpacked h
compressed_tag-plain unzstd _ stream z payload of_block_bytes h = unpacked h
compressed_tag-plain unzstd _ stream z payload of_block_program h = unpacked h
compressed_tag-plain unzstd _ stream z payload of_request_body h = unpacked h

sent_plain :
    {D : Type 0} (unzstd : Unzstd D) (tag : Tag) (stream : ℕ) (payload : List ℕ)
    → IsUpload tag
    → plain_payload unzstd (record { tag = tag; stream = stream; payload = payload })
      ≡ ok (tag, payload)
unfolding plain_tag plain_payload
sent_plain unzstd _ stream payload of_program = refl
sent_plain unzstd _ stream payload of_block_bytes = refl
sent_plain unzstd _ stream payload of_block_program = refl
sent_plain unzstd _ stream payload of_request_body = refl

-- The peer reads back the tag and the payload, of at most 64 MiB, that an upload frame was made of,
-- for each kind of upload frame, compressed or not, if a zstd decoder of what
-- `zstd::bulk::compress` packed reads the payload from its start.
pub plain_payload-upload_frame :
    {D : Type 0} (bulk_compress : List ℕ → ℕ → Option (List ℕ)) (unzstd : Unzstd D)
    → IsPacking bulk_compress unzstd
    → (tag : Tag) (stream : ℕ) (payload : List ℕ) (packed : Bool) → IsUpload tag
    → length payload ≤ max_decompressed
    → plain_payload unzstd (upload_frame bulk_compress tag stream payload packed)
      ≡ ok (tag, payload)
unfolding upload_frame
plain_payload-upload_frame bulk_compress unzstd packing tag stream payload false u small =
    sent_plain unzstd tag stream payload u
plain_payload-upload_frame bulk_compress unzstd packing tag stream payload true u small =
    at_zstd (Compress.compress bulk_compress payload)
      (λ z. decompress-compress_small bulk_compress unzstd packing payload z small)
  where
    at_zstd :
        (o : Option (List ℕ))
        → ((z : List ℕ)
            → o ≡ some z
            → Compress.decompress unzstd.decoder unzstd.read_up_to z ≡ ok payload)
        → plain_payload unzstd (elim o [
          | none ↦ record { tag = tag; stream = stream; payload = payload }
          | some z ↦ record { tag = compressed_tag tag; stream = stream; payload = z }
        ])
          ≡ ok (tag, payload)
    at_zstd none i = sent_plain unzstd tag stream payload u
    at_zstd (some z) i = compressed_tag-plain unzstd tag stream z payload u (i z refl)
