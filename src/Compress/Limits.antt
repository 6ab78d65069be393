-- ===== src/Compress/Limits.antt =====
-- What crates/muka-proto/src/compress.rs gives back, and how much.
use muka_ai_trim.Common.{
  ℕ, ◌+◌, ◌*◌, ◌<◌, ◌≡◌, refl, ◌∙◌, ◌≤◌, ge→ltb, arith, Option, some, List, Result, ok, err, length,
  ltb, if◌then◌else◌, take, length-take, take_of_ge, Bool, true, false, min, lt→ltb, ltb→lt, ltb→ge,
}
use muka_ai_trim.Compress.{
  Unzstd, IsPacking, level, max_decompressed, CompressError, too_large, saves_little, compress,
  read_limited, decompress,
}
use Prim.Native.String.{String}

-- What a payload that is sent compressed satisfies.
record IsCompressed (bulk_compress : List ℕ → ℕ → Option (List ℕ)) (payload z : List ℕ)
    : Type 0 where
  made : bulk_compress payload level ≡ some z
  saves : 10 * length z < 9 * length payload

compress-IsCompressed :
    (bulk_compress : List ℕ → ℕ → Option (List ℕ)) (payload z : List ℕ)
    → compress bulk_compress payload ≡ some z
    → IsCompressed bulk_compress payload z
unfolding compress saves_little
compress-IsCompressed bulk_compress payload z h = record {
  made = ground arith;
  saves = ground arith;
}

-- Reading one byte more than allowed shows whether there are more bytes than allowed.
limited-take :
    (most : ℕ) (payload : List ℕ)
    → ◌≡◌ {A = Result CompressError (List ℕ)}
        (if ltb most (length (take (most + 1) payload))
          then err (too_large most)
          else ok (take (most + 1) payload))
        (if ltb most (length payload) then err (too_large most) else ok payload)
limited-take most payload =
    let kept : length (take (most + 1) payload) ≡ min (most + 1) (length payload) =
      length-take (most + 1) payload in
    go (ltb most (length payload)) refl kept
  where
    go :
        (t : Bool)
        → ltb most (length payload) ≡ t
        → length (take (most + 1) payload) ≡ min (most + 1) (length payload)
        → ◌≡◌ {A = Result CompressError (List ℕ)}
            (if ltb most (length (take (most + 1) payload))
              then err (too_large most)
              else ok (take (most + 1) payload))
            (if t then err (too_large most) else ok payload)
    go true big kept =
        let gt = ltb→lt most (length payload) big in
        let over : ltb most (length (take (most + 1) payload)) ≡ true =
          lt→ltb most (length (take (most + 1) payload)) (omega (arith, gt, kept)) in
        rw over refl
    go false small kept =
        let le = ltb→ge most (length payload) small in
        let all : take (most + 1) payload ≡ payload =
          take_of_ge (most + 1) payload (omega (arith, le)) in
        rw (all, small) refl

module _ {D : Type 0} (decoder : List ℕ → Result String D)
    (read_up_to : D → ℕ → Result String (List ℕ)) where
  read_limited-take :
      (d : D) (payload : List ℕ)
      → read_up_to d (max_decompressed + 1) ≡ ok (take (max_decompressed + 1) payload)
      → read_limited decoder read_up_to d ≡ (
          if ltb max_decompressed (length payload)
          then err (too_large max_decompressed)
          else ok payload)
  unfolding read_limited
  read_limited-take d payload h = rw (h, read_limited) (limited-take max_decompressed payload)

  -- Decompressing what `compress` made gives the payload back, or the error for one of more than
  -- 64 MiB, and a payload is only compressed where more than a tenth of it is saved, if a zstd
  -- decoder of what `bulk_compress` made reads the payload from its start.
  pub decompress-compress :
      (bulk_compress : List ℕ → ℕ → Option (List ℕ))
      → ((payload z : List ℕ)
          → bulk_compress payload level ≡ some z
          → (d : D) × (decoder z ≡ ok d) × ((n : ℕ) → read_up_to d n ≡ ok (take n payload)))
      → (payload z : List ℕ) → compress bulk_compress payload ≡ some z
      → (decompress decoder read_up_to z ≡ (
          if ltb max_decompressed (length payload)
          then err (too_large max_decompressed)
          else ok payload))
        × (10 * length z < 9 * length payload)
  unfolding decompress
  decompress-compress bulk_compress reads payload z h =
      let c = compress-IsCompressed bulk_compress payload z h in
      let (d, opened, content) = reads payload z c.made in
      (
        rw (opened, decompress) (read_limited-take d payload (content (max_decompressed + 1))),
        c.saves,
      )

-- What `compress` made of a payload of at most 64 MiB is decompressed to it.
pub decompress-compress_small :
    {D : Type 0} (bulk_compress : List ℕ → ℕ → Option (List ℕ)) (unzstd : Unzstd D)
    → IsPacking bulk_compress unzstd
    → (payload z : List ℕ) → length payload ≤ max_decompressed
    → compress bulk_compress payload ≡ some z
    → decompress unzstd.decoder unzstd.read_up_to z ≡ ok payload
decompress-compress_small bulk_compress unzstd packing payload z small h =
    let fine : ltb max_decompressed (length payload) ≡ false = ge→ltb _ _ small in
    let (whole, saves) =
      decompress-compress unzstd.decoder unzstd.read_up_to bulk_compress packing.reads payload z
        h in
    whole ∙ rw fine refl
