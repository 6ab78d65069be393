-- ===== src/Varint.antt =====
-- crates/muka-proto/src/varint.rs: unsigned LEB128 integers and the bounded reader.
-- A byte slice is a list of numbers. A read that fails ends the caller by `?`, so the reader that
-- it leaves behind is not returned.
pub mod Reading
pub mod Writing
pub mod RoundTrip
pub mod Decode
use muka_ai_trim.Common.{
  ℕ, zero, suc, ◌+◌, ◌-◌, ◌*◌, ◌%◌, ◌^◌, Bool, true, false, not, Option, none, some, List, [], ◌∷◌,
  ◌++◌, ltb, ◌==◌, if◌then◌else◌, length, get_elem?, take, drop, Result, ok, err, ◌>>=◌, u64_mod,
  low_bits, shr, bit_set,
}
use Prim.Native.String.{String}

pub data CodecError : Type 0 where
  varint_too_long : CodecError
  overflow : String → CodecError
  eof : ℕ → CodecError
  bad : String → CodecError

-- The loop of `write_uvarint`. A `u64` has at most ten groups of seven bits.
unfoldable pub write_loop : ℕ → ℕ → List ℕ
write_loop zero v = []
write_loop (suc k) v =
    let byte = low_bits v 7 in
    let v' = shr v 7 in
    let more = (byte + 0x80) ∷ write_loop k v' in if v' == 0 then byte ∷ [] else more

-- `byte | 0x80` is `byte + 0x80`, since the byte is below 0x80.
unfoldable pub write_uvarint : List ℕ → ℕ → List ℕ
write_uvarint buf v = buf ++ write_loop 10 v

pub record Reader : Type 0 where
  pub buf : List ℕ
  pub pos : ℕ

unfoldable pub new : List ℕ → Reader
new buf = record { buf = buf; pos = 0 }

abbrev pub remaining : Reader → ℕ
remaining r = length r.buf - r.pos

abbrev pub advance : Reader → ℕ → Reader
advance r n = record r { pos = r.pos + n }

abbrev pub ok_or : {A : Type 0} → Option A → CodecError → Result CodecError A
ok_or none e = err e
ok_or (some a) e = ok a

-- `checked_shl` tests the distance and not the value: the bits above 63 are dropped.
abbrev pub checked_shl : ℕ → ℕ → Option ℕ
checked_shl x n = if ltb n 64 then some (x * 2 ^ n % u64_mod) else none

abbrev pub checked_add : ℕ → ℕ → Option ℕ
checked_add a b = if ltb (a + b) u64_mod then some (a + b) else none

-- `out.checked_add(shifted.checked_shl(7 * i)?)?` for the byte `b` of round `i`.
unfoldable pub add_group : ℕ → ℕ → ℕ → Result CodecError ℕ
add_group i out b = do
  shifted ← ok_or (checked_shl (low_bits b 7) (7 * i)) varint_too_long
  ok_or (checked_add out shifted) varint_too_long

-- Rounds left, the round's number, the value so far.
unfoldable pub uvarint_loop : ℕ → ℕ → ℕ → Reader → Result CodecError (ℕ × Reader)
uvarint_loop zero i out r = err varint_too_long
uvarint_loop (suc k) i out r = do
  b ← ok_or (get_elem? r.buf r.pos) (eof r.pos)
  out' ← add_group i out b
  let more = uvarint_loop k (i + 1) out' (advance r 1)
  if bit_set b 7 then more else ok (out', advance r 1)

unfoldable pub uvarint : Reader → Result CodecError (ℕ × Reader)
uvarint = uvarint_loop 10 0 0

-- `usize::try_from` on a 64-bit target; the failing arm is that of a narrower one.
unfoldable pub u64_as : String → Reader → Result CodecError (ℕ × Reader)
u64_as what r = do (v, r') ← uvarint r; if ltb v u64_mod then ok (v, r') else err (overflow what)

unfoldable pub take_bytes : ℕ → Reader → Result CodecError (List ℕ × Reader)
take_bytes n r =
    if ltb (remaining r) n then err (eof r.pos) else ok (take n (drop r.pos r.buf), advance r n)

unfoldable pub rest : Reader → List ℕ × Reader
rest r = (drop r.pos r.buf, record r { pos = length r.buf })
