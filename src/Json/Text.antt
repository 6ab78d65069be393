-- ===== src/Json/Text.antt =====
-- `decode_string` of crates/muka-split/src/json.rs: the logical bytes of a JSON string. The loop runs
-- over what is left of the string, beside the position that errors report.
use muka_ai_trim.Common.{
  ℕ, zero, suc, ◌+◌, ◌-◌, ◌*◌, ◌/◌, ◌%◌, Bool, false, ◌||◌, ◌&&◌, not, Option, none, some, List, [],
  ◌∷◌, ◌++◌, ltb, leb, ◌==◌, if◌then◌else◌, length, take, drop, Result, ok, err, ◌>>=◌, ◌>>◌, guard,
}
use muka_ai_trim.Json.{Span, slice, is_inside}
use muka_ai_trim.Json.Scan.{ScanError, eof, syntax, panicked, out_of_fuel}

-- `char::encode_utf8`, at a code point that is no surrogate.
unfoldable pub encode_utf8 : ℕ → List ℕ
encode_utf8 c =
    if ltb c 0x80
    then c ∷ []
    else if ltb c 0x800
    then (0xC0 + c / 64) ∷ (0x80 + c % 64) ∷ []
    else if ltb c 0x10000
    then (0xE0 + c / 4096) ∷ (0x80 + c / 64 % 64) ∷ (0x80 + c % 64) ∷ []
    else (0xF0 + c / 262144) ∷ (0x80 + c / 4096 % 64) ∷ (0x80 + c / 64 % 64) ∷ (0x80 + c % 64) ∷ []

-- `char::to_digit(16)`
unfoldable pub to_digit : ℕ → Option ℕ
to_digit c =
    if leb 48 c && leb c 57
    then some (c - 48)
    else if leb 97 c && leb c 102
    then some (c - 87)
    else if leb 65 c && leb c 70
    then some (c - 55)
    else none

-- The byte that a one-letter escape stands for.
unfoldable pub unescape : ℕ → Option ℕ
unescape e =
    if (e == 34) || ((e == 92) || (e == 47))
    then some e
    else if e == 98
    then some 8
    else if e == 102
    then some 12
    else if e == 110
    then some 10
    else if e == 114
    then some 13
    else if e == 116
    then some 9
    else none

abbrev pub is_low : ℕ → Bool
is_low c = leb 0xDC00 c && ltb c 0xE000

abbrev pub is_high : ℕ → Bool
is_high c = leb 0xD800 c && ltb c 0xDC00

abbrev pub contains_byte : ℕ → List ℕ → Bool
contains_byte b [] = false
contains_byte b (c ∷ cs) = (c == b) || contains_byte b cs

-- The bytes of one character, the position behind it, and what is left.
abbrev pub Piece : Type 0
Piece = List ℕ × ℕ × List ℕ

module _ (start : ℕ) where
  unfoldable pub hex_digit : ℕ → ℕ → Result ScanError ℕ
  hex_digit i c = elim (to_digit c) [
    | none ↦ err (syntax "bad hex in \\u" (start + i))
    | some d ↦ ok d
  ]

  unfoldable pub read_hex4 : ℕ → List ℕ → Result ScanError (ℕ × List ℕ)
  read_hex4 i (a ∷ b ∷ c ∷ d ∷ rest) = do
    w ← hex_digit i a
    x ← hex_digit (i + 1) b
    y ← hex_digit (i + 2) c
    z ← hex_digit (i + 3) d
    ok (((w * 16 + x) * 16 + y) * 16 + z, rest)
  read_hex4 i rest = err (eof (start + i))

  -- The second half of a surrogate pair, behind `hi`.
  unfoldable pub low_half : ℕ → ℕ → List ℕ → Result ScanError Piece
  low_half i hi (a ∷ b ∷ rest) =
      if (a == 92) && (b == 117)
      then (read_hex4 (i + 2) rest >>= λ q.
          (guard (is_low q.0) (syntax "bad surrogate pair" (start + (i + 6)))
            >> ok (encode_utf8 (0x10000 + (hi - 0xD800) * 1024 + (q.0 - 0xDC00)), i + 6, q.1)))
      else err (syntax "unpaired high surrogate" (start + i))
  low_half i hi rest = err (syntax "unpaired high surrogate" (start + i))

  unfoldable pub decode_unicode : ℕ → List ℕ → Result ScanError Piece
  decode_unicode i rest = do
    (cp, rest') ← read_hex4 i rest
    guard (not (is_low cp)) (syntax "lone low surrogate" (start + (i + 4)))
    if is_high cp then low_half (i + 4) cp rest' else ok (encode_utf8 cp, i + 4, rest')

  -- Behind the backslash and the letter `e`.
  unfoldable pub decode_escape : ℕ → ℕ → List ℕ → Result ScanError Piece
  decode_escape i e rest = elim (unescape e) [
    | some b ↦ ok (b ∷ [], i, rest)
    | none ↦ if e == 117 then decode_unicode i rest else err (syntax "bad escape" (start + i))
  ]

  unfoldable pub decode_char : ℕ → ℕ → List ℕ → Result ScanError Piece
  decode_char i c rest =
      if c == 92
      then elim rest [
        | [] ↦ err (eof (start + (i + 1)))
        | e ∷ rest' ↦ decode_escape (i + 2) e rest'
      ]
      else ok (c ∷ [], i + 1, rest)

  unfoldable pub decode_loop : ℕ → ℕ → List ℕ → List ℕ → Result ScanError (List ℕ)
  decode_loop fuel i [] out = ok out
  decode_loop zero i (c ∷ rest) out = err out_of_fuel
  decode_loop (suc fuel) i (c ∷ rest) out = do
    (bytes, i', rest') ← decode_char i c rest
    decode_loop fuel i' rest' (out ++ bytes)

abbrev pub ends_quoted : ℕ → List ℕ → Bool
ends_quoted c [] = c == 34
ends_quoted c (d ∷ rest) = ends_quoted d rest

abbrev pub is_quoted : List ℕ → Bool
is_quoted [] = false
is_quoted (q ∷ []) = false
is_quoted (q ∷ c ∷ rest) = (q == 34) && ends_quoted c rest

unfoldable pub decode_string : List ℕ → Span → Result ScanError (List ℕ)
decode_string buf s =
    let raw : List ℕ = slice s buf in
    let body : List ℕ = take (length raw - 2) (drop 1 raw) in
    if not (is_inside s buf)
    then err panicked
    else if not (is_quoted raw)
    then err (syntax "bad string span" s.start)
    else if not (contains_byte 92 body)
    then ok body
    else decode_loop s.start (length body) 0 body []
