-- ===== src/Digest.antt =====
-- crates/muka-split/src/digest.rs: block kinds, content digests and their hexadecimal form.
-- A digest is the list of its bytes. BLAKE3 is not part of the repository and is a parameter.
pub mod Hex
use Prim.Native.Char.{code}
use Prim.Native.String.{String}
use muka_ai_trim.Common.{
  ℕ, zero, suc, ◌+◌, ◌-◌, ◌*◌, ◌/◌, ◌%◌, Option, none, some, List, [], ◌∷◌, ◌++◌, ◌==◌, ltb, leb,
  if◌then◌else◌, length, take, ◌&&◌, ◌||◌, Bool, low_bits, shr,
}

abbrev pub digest_len : ℕ
digest_len = 16

abbrev pub Digest : Type 0
Digest = List ℕ

pub data BlockKind : Type 0 where
  raw json_member media chunk text : BlockKind

-- `kind as u8`
unfoldable pub to_u8 : BlockKind → ℕ
to_u8 raw = 0
to_u8 json_member = 1
to_u8 media = 2
to_u8 chunk = 3
to_u8 text = 4

unfoldable pub from_u8 : ℕ → Option BlockKind
from_u8 v =
    if v == 0
    then some raw
    else if v == 1
    then some json_member
    else if v == 2
    then some media
    else if v == 3
    then some chunk
    else if v == 4
    then some text
    else none

unfoldable pub hex_b : ℕ → ℕ
hex_b n = if ltb n 10 then b'0' + n else b'a' + (n - 10)

-- `none` is the error "bad hex digit".
unfoldable pub hex_v : ℕ → Option ℕ
hex_v c =
    if leb b'0' c && leb c b'9'
    then some (c - b'0')
    else if leb b'a' c && leb c b'f'
    then some (c - b'a' + 10)
    else if leb b'A' c && leb c b'F'
    then some (c - b'A' + 10)
    else none

unfoldable pub serialize : Digest → List ℕ
serialize [] = []
serialize (b ∷ bs) = hex_b (shr b 4) ∷ hex_b (low_bits b 4) ∷ serialize bs

infixl 5 ◌>>=◌
abbrev ◌>>=◌ : {A B : Type 0} → Option A → (A → Option B) → Option B
none >>= f = none
some a >>= f = f a

-- The pairs of digits of a text of even length. `(hi << 4) | lo` is `hi * 16 + lo`, since `lo`
-- is below 16.
unfoldable pub hex_pairs : List ℕ → Option Digest
hex_pairs [] = some []
hex_pairs (c ∷ []) = none
hex_pairs (c ∷ d ∷ cs) = do
  hi ← hex_v c
  lo ← hex_v d
  bs ← hex_pairs cs
  some ((hi * 16 + lo) ∷ bs)

-- `none` is an error: "bad digest length" or "bad hex digit".
unfoldable pub deserialize : List ℕ → Option Digest
deserialize s = if length s == digest_len * 2 then hex_pairs s else none

-- `u64::to_le_bytes`, over the number of bytes.
unfoldable pub le_bytes : ℕ → ℕ → List ℕ
le_bytes zero v = []
le_bytes (suc k) v = low_bits v 8 ∷ le_bytes k (shr v 8)

-- `u64::from_le_bytes`.
unfoldable pub of_le_bytes : List ℕ → ℕ
of_le_bytes [] = 0
of_le_bytes (b ∷ bs) = b + 256 * of_le_bytes bs

abbrev pub codes : String → List ℕ
codes String.[] = []
codes (String.◌∷◌ c s) = code c ∷ codes s

abbrev pub domain : List ℕ
domain = codes "MUKA-SPLIT-1"

-- What the hasher is fed, and the first sixteen bytes of what it returns.
module _ (blake3 : List ℕ → List ℕ) where
  unfoldable pub digest_of : BlockKind → List ℕ → Digest
  digest_of kind bytes =
      take digest_len (blake3 (domain ++ (to_u8 kind ∷ (le_bytes 8 (length bytes) ++ bytes))))

  -- An entry of the gear table: the first eight bytes of the hash, as a `u64`.
  unfoldable pub gear_at : ℕ → ℕ
  gear_at i = of_le_bytes (take 8 (blake3 (domain ++ le_bytes 4 i)))
