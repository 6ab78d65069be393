-- ===== src/Message/Needs.antt =====
-- `encode_needs` and `decode_needs` of crates/muka-proto/src/msg.rs.
use muka_ai_trim.Common.{
  ℕ, ◌≤◌, ◌≡◌, refl, sym, ap, ◌∙◌, arith, List, [], ◌∷◌, ◌++◌, append-nil, append_assoc, length, ok,
  IsU64, All,
}
use muka_ai_trim.Digest.{Digest, digest_len}
use muka_ai_trim.Varint.{Reader, new}
use muka_ai_trim.Varint.Reading.{Reads, Reads-take}
use muka_ai_trim.Varint.Writing.{varint, write_uvarint-varint}
use muka_ai_trim.Codec.Decoding.{Reads-pure, Reads-lift, Reads-then, Reads-check-then}
use muka_ai_trim.Codec.Frames.{u64_as-varint}
use muka_ai_trim.Message.{append_digests, encode_needs, take_digests, needs_body, decode_needs}

wire_digests : List Digest → List ℕ
wire_digests [] = []
wire_digests (d ∷ ds) = d ++ wire_digests ds

append_digests-shape :
    (out : List ℕ) (ds : List Digest) → append_digests out ds ≡ out ++ wire_digests ds
unfolding append_digests wire_digests
append_digests-shape out [] = sym (append-nil out)
append_digests-shape out (d ∷ ds) =
    append_digests-shape (out ++ d) ds ∙ append_assoc out d (wire_digests ds)

Reads-take_digests :
    (ds out : List Digest)
    → All (λ d. length d ≡ digest_len) ds
    → Reads (take_digests (length ds) out) (wire_digests ds) (out ++ ds)
unfolding take_digests wire_digests
Reads-take_digests [] out h = rw append-nil (Reads-pure out)
Reads-take_digests (d ∷ ds) out (h, hs) =
    Reads-then _ (rw h at (Reads-lift (Reads-take d)))
      (rw append_assoc at (Reads-take_digests ds (out ++ (d ∷ [])) hs))

encode_needs-shape : (ds : List Digest) → encode_needs ds ≡ varint (length ds) ++ wire_digests ds
unfolding encode_needs
encode_needs-shape ds =
    append_digests-shape _ ds
    ∙ ap (λ (t : List ℕ). t ++ wire_digests ds) (write_uvarint-varint [] (length ds))

needs_body-Reads :
    (ds : List Digest) (limit : ℕ)
    → All (λ d. length d ≡ digest_len) ds
    → length ds ≤ limit
    → IsU64 limit
    → Reads (needs_body limit) (encode_needs ds) ds
unfolding needs_body
needs_body-Reads ds limit h fits hl = rw (encode_needs-shape ds) (
    Reads-then _ (Reads-lift (u64_as-varint "need count" (length ds) (omega arith)))
      (Reads-check-then _ _ _ (ground arith) (Reads-take_digests ds [] h)))

-- `decode_needs` reads back the digests that `encode_needs` wrote, if they are of sixteen bytes
-- and no more than the receiver's limit, and whatever bytes follow.
decode_needs-encode_needs :
    (ds : List Digest) (limit : ℕ) (more : List ℕ)
    → All (λ d. length d ≡ digest_len) ds
    → length ds ≤ limit
    → IsU64 limit
    → decode_needs (encode_needs ds ++ more) limit ≡ ok ds
unfolding decode_needs new
decode_needs-encode_needs ds limit more h fits hl =
    let r : Reader = record { buf = encode_needs ds ++ more; pos = 0 } in
    let step = (needs_body-Reads ds limit h fits hl).run r more refl in rw step
