-- ===== src/Json/Scan.antt =====
-- crates/muka-split/src/json.rs: the scanner that finds where a JSON value starts and ends. A loop
-- over the buffer is a count over what is left of it, or recursion on fuel, which is the length of
-- the buffer.
use muka_ai_trim.Common.{
  ℕ, zero, suc, ◌+◌, ◌-◌, Bool, true, false, ◌||◌, ◌&&◌, not, Option, none, some, List, [], ◌∷◌,
  ltb, leb, ◌==◌, if◌then◌else◌, length, get_elem?, take, drop, bytes_eq, Result, ok, err, ◌>>=◌,
  ◌>>◌, guard,
}
use muka_ai_trim.Digest.{codes}
use muka_ai_trim.Json.{Span}
use Prim.Native.String.{String}

pub data ValueKind : Type 0 where
  string number object array bool null : ValueKind

pub record ValueSpan : Type 0 where
  pub span : Span
  pub kind : ValueKind

-- `panicked` is the panic of a slice outside the buffer, and no error of the source. `out_of_fuel` is
-- the model's own, and no result of a scan.
pub data ScanError : Type 0 where
  eof : ℕ → ScanError
  syntax : String → ℕ → ScanError
  too_deep : ℕ → ScanError
  panicked out_of_fuel : ScanError

abbrev pub max_depth : ℕ
max_depth = 128

abbrev pub is_ws : ℕ → Bool
is_ws c = (c == 32) || ((c == 9) || ((c == 13) || (c == 10)))

abbrev pub is_digit : ℕ → Bool
is_digit c = leb 48 c && leb c 57

abbrev pub is_hex : ℕ → Bool
is_hex c = is_digit c || ((leb 97 c && leb c 102) || (leb 65 c && leb c 70))

-- What may stand behind a backslash, `u` aside: `"`, `\`, `/`, `b`, `f`, `n`, `r`, `t`.
abbrev pub is_escape : ℕ → Bool
is_escape e =
    (e == 34)
    || ((e == 92)
        || ((e == 47) || ((e == 98) || ((e == 102) || ((e == 110) || ((e == 114) || (e == 116)))))))

unfoldable pub count_while : (ℕ → Bool) → List ℕ → ℕ
count_while p [] = 0
count_while p (c ∷ cs) = let n = count_while p cs in if p c then suc n else 0

-- A round of the bracket loop: the container ends, or the scan goes on at a position and depth.
pub data Round : Type 0 where
  closes : ℕ → Round
  goes_on : ℕ → ℕ → Round

module _ (buf : List ℕ) where
  unfoldable pub byte_at : ℕ → Result ScanError ℕ
  byte_at i = elim (get_elem? buf i) [ none ↦ err (eof i) | some c ↦ ok c ]

  unfoldable pub skip_ws : ℕ → ℕ
  skip_ws i = i + count_while is_ws (drop i buf)

  unfoldable pub hex_end : ℕ → ℕ → Result ScanError ℕ
  hex_end zero j = ok j
  hex_end (suc k) j = do
    h ← byte_at j
    guard (is_hex h) (syntax "bad \\u escape" j)
    hex_end k (j + 1)

  unfoldable pub escape_end : ℕ → Result ScanError ℕ
  escape_end i = do
    e ← byte_at (i + 1)
    if is_escape e
        then ok (i + 2)
        else if e == 117
        then hex_end 4 (i + 2)
        else err (syntax "bad escape" (i + 1))

  -- Where the character at `i` ends; `none` at the closing quote.
  unfoldable pub char_end : ℕ → ℕ → Result ScanError (Option ℕ)
  char_end i c =
      if c == 34
      then ok none
      else if c == 92
      then (escape_end i >>= λ j. ok (some j))
      else if ltb c 32
      then err (syntax "raw control byte in string" i)
      else ok (some (i + 1))

  unfoldable pub string_loop : ℕ → ℕ → Result ScanError ℕ
  string_loop zero i = err out_of_fuel
  string_loop (suc fuel) i = do
    c ← byte_at i
    o ← char_end i c
    elim o [ none ↦ ok (i + 1) | some j ↦ string_loop fuel j ]

  unfoldable pub scan_string : ℕ → Result ScanError Span
  scan_string at_pos = do
    c ← byte_at at_pos
    guard (c == 34) (syntax "expected string" at_pos)
    end ← string_loop (length buf) (at_pos + 1)
    ok (record { start = at_pos; end = end })

  abbrev pub byte_is : ℕ → ℕ → Bool
  byte_is i c = elim (get_elem? buf i) [ none ↦ false | some x ↦ x == c ]

  abbrev pub digits_end : ℕ → ℕ
  digits_end i = i + count_while is_digit (drop i buf)

  abbrev pub some_digits : ℕ → String → Result ScanError ℕ
  some_digits i what = if digits_end i == i then err (syntax what i) else ok (digits_end i)

  abbrev pub sign_end : ℕ → ℕ
  sign_end i = if byte_is i 43 || byte_is i 45 then i + 1 else i

  unfoldable pub integer_end : ℕ → ℕ → Result ScanError ℕ
  integer_end i first =
      if first == 48
      then ok (i + 1)
      else if leb 49 first && leb first 57
      then ok (digits_end i)
      else err (syntax "bad number" i)

  unfoldable pub fraction_end : ℕ → Result ScanError ℕ
  fraction_end i = if byte_is i 46 then some_digits (i + 1) "bad fraction" else ok i

  unfoldable pub exponent_end : ℕ → Result ScanError ℕ
  exponent_end i =
      if byte_is i 101 || byte_is i 69 then some_digits (sign_end (i + 1)) "bad exponent" else ok i

  unfoldable pub scan_number : ℕ → Result ScanError Span
  scan_number start = do
    c ← byte_at start
    first ← byte_at (if c == 45 then start + 1 else start)
    i ← integer_end (if c == 45 then start + 1 else start) first
    j ← fraction_end i
    k ← exponent_end j
    ok (record { start = start; end = k })

  unfoldable pub scan_literal : ℕ → List ℕ → Result ScanError Span
  scan_literal start text =
      if ltb (length buf) (start + length text)
        || not (bytes_eq (take (length text) (drop start buf)) text)
      then err (syntax "bad literal" start)
      else ok (record { start = start; end = start + length text })

  unfoldable pub container_round : ℕ → ℕ → ℕ → ℕ → Result ScanError Round
  container_round close j d b =
      if b == 34
      then (scan_string j >>= λ s. ok (goes_on s.end d))
      else if (b == 123) || (b == 91)
      then (if ltb max_depth (d + 1) then err (too_deep j) else ok (goes_on (j + 1) (d + 1)))
      else if (b == 125) || (b == 93)
      then (if d == 1
          then (if b == close then ok (closes (j + 1)) else err (syntax "mismatched bracket" j))
          else ok (goes_on (j + 1) (d - 1)))
      else ok (goes_on (j + 1) d)

  unfoldable pub container_loop : ℕ → ℕ → ℕ → ℕ → Result ScanError ℕ
  container_loop zero close j d = err out_of_fuel
  container_loop (suc fuel) close j d = do
    b ← byte_at j
    r ← container_round close j d b
    elim r [ closes e ↦ ok e | goes_on j' d' ↦ container_loop fuel close j' d' ]

  unfoldable pub scan_container : ℕ → ℕ → Result ScanError Span
  scan_container i c = do
    end ← container_loop (length buf) (if c == 123 then 125 else 93) (i + 1) 1
    ok (record { start = i; end = end })

  abbrev pub as_kind : ValueKind → Result ScanError Span → Result ScanError ValueSpan
  as_kind kind r = r >>= λ s. ok (record { span = s; kind = kind })

  -- The value whose first byte is `c`, at `i`.
  unfoldable pub value_at : ℕ → ℕ → Result ScanError ValueSpan
  value_at i c =
      if c == 34
      then as_kind string (scan_string i)
      else if c == 123
      then as_kind object (scan_container i c)
      else if c == 91
      then as_kind array (scan_container i c)
      else if c == 116
      then as_kind bool (scan_literal i (codes "true"))
      else if c == 102
      then as_kind bool (scan_literal i (codes "false"))
      else if c == 110
      then as_kind null (scan_literal i (codes "null"))
      else if (c == 45) || is_digit c
      then as_kind number (scan_number i)
      else err (syntax "unexpected byte" i)

  unfoldable pub scan_value_depth : ℕ → ℕ → Result ScanError ValueSpan
  scan_value_depth pos depth =
      if ltb max_depth depth
      then err (too_deep pos)
      else do c ← byte_at (skip_ws pos); value_at (skip_ws pos) c

  unfoldable pub scan_value : ℕ → Result ScanError ValueSpan
  scan_value pos = scan_value_depth pos 0

  abbrev pub is_object : ValueKind → Bool
  is_object object = true
  is_object k = false

  unfoldable pub scan_document : Result ScanError ValueSpan
  scan_document = do
    v ← scan_value 0
    guard (skip_ws v.span.end == length buf) (syntax "trailing bytes after document" v.span.end)
    guard (is_object v.kind) (syntax "document is not an object" v.span.start)
    ok v
