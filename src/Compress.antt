-- ===== src/Compress.antt =====
-- crates/muka-proto/src/compress.rs: the wrapper of zstd, which is a parameter.
-- `bulk_compress` is `zstd::bulk::compress` of a payload at a level, without its error; `decoder` is
-- `zstd::stream::Decoder::new` and `read_up_to` is `take(n)` of a decoder, read to its end, both with
-- the error's text. `saving` is a division of doubles: the test on it is written out on the lengths.
pub mod Limits
use muka_ai_trim.Common.{
  ℕ, ◌+◌, ◌*◌, ◌^◌, Bool, Option, none, some, List, [], ◌∷◌, Result, ok, err, length, ltb, leb,
  take, ◌≡◌, if◌then◌else◌,
}
use muka_ai_trim.Resolve.{is_empty}
use Prim.Native.String.{String}

abbrev pub min_compress_bytes : ℕ
min_compress_bytes = 512

abbrev pub level : ℕ
level = 3

-- `64 << 20`.
abbrev pub max_decompressed : ℕ
max_decompressed = 64 * 2 ^ 20

pub data CompressError : Type 0 where
  encode : ℕ → CompressError
  decode : String → CompressError
  too_large : ℕ → CompressError

-- Less than a tenth is saved. A quotient of exactly nine tenths is rounded up, so its saving is less
-- than the double 0.1 too.
unfoldable pub saves_little : List ℕ → List ℕ → Bool
saves_little payload out = leb (9 * length payload) (10 * length out)

-- A decoder of the `zstd` crate: opening a stream, and reading it up to a number of bytes.
pub record Unzstd (D : Type 0) : Type 0 where
  pub decoder : List ℕ → Result String D
  pub read_up_to : D → ℕ → Result String (List ℕ)

-- A payload that `bulk_compress` packs is what a decoder of the packed bytes reads from its start.
pub record IsPacking {D : Type 0} (bulk_compress : List ℕ → ℕ → Option (List ℕ)) (unzstd : Unzstd D)
    : Type 0 where
  pub reads :
      (payload z : List ℕ)
      → bulk_compress payload level ≡ some z
      → (d : D) × (unzstd.decoder z ≡ ok d)
        × ((n : ℕ) → unzstd.read_up_to d n ≡ ok (take n payload))

unfoldable pub compress : (List ℕ → ℕ → Option (List ℕ)) → List ℕ → Option (List ℕ)
compress bulk_compress payload =
    if ltb (length payload) min_compress_bytes then none else elim (bulk_compress payload level) [
      | none ↦ none
      | some out ↦
          if is_empty out then none else if saves_little payload out then none else some out
    ]

module _ {D : Type 0} (decoder : List ℕ → Result String D)
    (read_up_to : D → ℕ → Result String (List ℕ)) where
  unfoldable pub read_limited : D → Result CompressError (List ℕ)
  read_limited d = elim (read_up_to d (max_decompressed + 1)) [
    | err e ↦ err (decode e)
    | ok buf ↦
        if ltb max_decompressed (length buf) then err (too_large max_decompressed) else ok buf
  ]

  unfoldable pub decompress : List ℕ → Result CompressError (List ℕ)
  decompress payload = elim (decoder payload) [ err e ↦ err (decode e) | ok d ↦ read_limited d ]
