-- ===== src/Examples/Packed.antt =====
-- A codec that packs the repetitions of one byte.
use muka_ai_trim.Common.{
  ℕ, ◌*◌, ◌<◌, ◌≡◌, refl, sym, ap, Bool, true, false, Option, none, some, List, [], ◌∷◌, Result, ok,
  err, length, arith, ltb, bytes_eq, bytes_eq_iff, if◌then◌else◌, take, zero, suc,
}
use muka_ai_trim.Compress.{
  Unzstd, IsPacking, too_large, compress, decompress, max_decompressed, saves_little, level,
}
use muka_ai_trim.Compress.Limits.{decompress-compress}
use muka_ai_trim.Codec.{program_tag}
use muka_ai_trim.Session.{upload_frame, plain_payload}
use muka_ai_trim.Session.Upload.{plain_payload-upload_frame, of_program}
use Prim.Native.String.{String}

abbrev pub sevens : ℕ → List ℕ
sevens zero = []
sevens (suc n) = 7 ∷ sevens n

abbrev pub pack : List ℕ → ℕ → Option (List ℕ)
pack payload n =
    if bytes_eq payload (sevens (length payload)) then some (length payload ∷ []) else none

abbrev unpack : List ℕ → Result String (List ℕ)
unpack [] = err "empty"
unpack (n ∷ z) = ok (sevens n)

abbrev read : List ℕ → ℕ → Result String (List ℕ)
read whole n = ok (take n whole)

pack-unpack :
    (payload z : List ℕ)
    → pack payload level ≡ some z
    → (d : List ℕ) × (unpack z ≡ ok d) × ((n : ℕ) → read d n ≡ ok (take n payload))
pack-unpack payload z h = go (bytes_eq payload (sevens (length payload))) refl h
  where
    go :
        (t : Bool)
        → bytes_eq payload (sevens (length payload)) ≡ t
        → (if t then some (length payload ∷ []) else none) ≡ some z
        → (d : List ℕ) × (unpack z ≡ ok d) × ((n : ℕ) → read d n ≡ ok (take n payload))
    go false e h = cc
    go true e h =
        let same : payload ≡ sevens (length payload) =
          (bytes_eq_iff payload (sevens (length payload))).0 e in
        let packed : length payload ∷ [] ≡ z = cc in
        (
          sevens (length payload),
          sym (ap unpack packed),
          λ n. ap (λ (l : List ℕ). ok (take n l)) (sym same),
        )

abbrev pub codec : Unzstd (List ℕ)
codec = record { decoder = unpack; read_up_to = read }

pub codec_packs : IsPacking pack codec
codec_packs = record { reads = pack-unpack }

packs : compress pack (sevens 600) ≡ some (600 ∷ [])
unfolding compress saves_little bytes_eq
packs = refl

decompress-compress_example :
    (decompress unpack read (600 ∷ []) ≡ (
      if ltb max_decompressed (length (sevens 600))
      then err (too_large max_decompressed)
      else ok (sevens 600)))
    × (10 * 1 < 9 * length (sevens 600))
decompress-compress_example =
    decompress-compress unpack read pack pack-unpack (sevens 600) (600 ∷ []) packs

-- A payload of 600 bytes, which is packed.
upload_example :
    plain_payload codec (upload_frame pack program_tag 3 (sevens 600) true)
    ≡ ok (program_tag, sevens 600)
upload_example =
    plain_payload-upload_frame pack codec codec_packs program_tag 3 (sevens 600) true of_program
      (omega arith)
