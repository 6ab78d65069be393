-- ===== src/Json/Members.antt =====
-- The members of an object and the elements of an array, and the recursive check of a document, in
-- crates/muka-split/src/json.rs. A loop runs on the length of the buffer.
use muka_ai_trim.Common.{
  ℕ, zero, suc, ◌+◌, Bool, false, Option, none, some, List, [], ◌∷◌, ltb, ◌==◌, if◌then◌else◌,
  length, Result, ok, err, ◌>>=◌, ◌>>◌, guard,
}
use muka_ai_trim.Json.{Span}
use muka_ai_trim.Json.Scan.{
  ScanError, syntax, too_deep, out_of_fuel, string, object, array, ValueSpan, byte_at, skip_ws,
  scan_string, scan_value_depth, scan_document, max_depth,
}
use Prim.Native.String.{String}
use muka_ai_trim.Json.Text.{decode_string}

pub record Member : Type 0 where
  pub key : List ℕ
  pub key_span : Span
  pub value : ValueSpan

module _ (buf : List ℕ) where
  -- Where the list goes on behind an item that ends at `i`: `none` at the closing bracket, which
  -- must be the last byte before `stop`.
  unfoldable pub item_end : ℕ → ℕ → ℕ → String → String → Result ScanError (Option ℕ)
  item_end close stop i trailing expected = do
    c ← byte_at buf (skip_ws buf i)
    if c == 44
        then ok (some (skip_ws buf i + 1))
        else if c == close
        then (if skip_ws buf i + 1 == stop then ok none else err (syntax trailing (skip_ws buf i)))
        else err (syntax expected (skip_ws buf i))

  unfoldable pub member_at : Span → ℕ → Result ScanError (Member × Option ℕ)
  member_at obj i = do
    ks ← scan_string buf (skip_ws buf i)
    key ← decode_string buf ks
    c ← byte_at buf (skip_ws buf ks.end)
    guard (c == 58) (syntax "expected colon" (skip_ws buf ks.end))
    v ← scan_value_depth buf (skip_ws buf ks.end + 1) 1
    if ltb obj.end v.span.end then err (syntax "value overruns object" v.span.start) else do
      next ← item_end 125 obj.end v.span.end "trailing bytes in object" "expected , or }"
      ok (record { key = key; key_span = ks; value = v }, next)

  unfoldable pub members_loop : ℕ → Span → ℕ → Result ScanError (List Member)
  members_loop zero obj i = err out_of_fuel
  members_loop (suc fuel) obj i = do
    (m, next) ← member_at obj i
    elim next [ none ↦ ok (m ∷ []) | some j ↦ (members_loop fuel obj j >>= λ ms. ok (m ∷ ms)) ]

  -- `i < end && at(i)? == close`
  unfoldable pub is_empty_at : ℕ → ℕ → ℕ → Result ScanError Bool
  is_empty_at close stop i =
      if ltb i stop then (byte_at buf i >>= λ c. ok (c == close)) else ok false

  unfoldable pub members_of_object : Span → Result ScanError (List Member)
  members_of_object obj = do
    c ← byte_at buf obj.start
    guard (c == 123) (syntax "not an object" obj.start)
    none_there ← is_empty_at 125 obj.end (skip_ws buf (obj.start + 1))
    if none_there then ok [] else members_loop (length buf) obj (skip_ws buf (obj.start + 1))

  unfoldable pub element_at : Span → ℕ → Result ScanError (ValueSpan × Option ℕ)
  element_at arr i = do
    v ← scan_value_depth buf i 1
    if ltb arr.end v.span.end then err (syntax "element overruns array" v.span.start) else do
      next ← item_end 93 arr.end v.span.end "trailing bytes in array" "expected , or ]"
      ok (v, next)

  unfoldable pub elements_loop : ℕ → Span → ℕ → Result ScanError (List ValueSpan)
  elements_loop zero arr i = err out_of_fuel
  elements_loop (suc fuel) arr i = do
    (v, next) ← element_at arr i
    elim next [ none ↦ ok (v ∷ []) | some j ↦ (elements_loop fuel arr j >>= λ vs. ok (v ∷ vs)) ]

  unfoldable pub elements_of_array : Span → Result ScanError (List ValueSpan)
  elements_of_array arr = do
    c ← byte_at buf arr.start
    guard (c == 91) (syntax "not an array" arr.start)
    none_there ← is_empty_at 93 arr.end (skip_ws buf (arr.start + 1))
    if none_there then ok [] else elements_loop (length buf) arr (skip_ws buf (arr.start + 1))

  abbrev pub each_value :
      (ValueSpan → Result ScanError (Unit {0})) → List ValueSpan → Result ScanError (Unit {0})
  each_value f [] = ok tt
  each_value f (v ∷ vs) = f v >> each_value f vs

  abbrev pub values : List Member → List ValueSpan
  values [] = []
  values (m ∷ ms) = m.value ∷ values ms

  -- `room` levels may follow: the source counts `depth` up to `max_depth`.
  unfoldable pub validate : ℕ → ValueSpan → Result ScanError (Unit {0})
  validate zero v = err (too_deep v.span.start)
  validate (suc room) v = elim v.kind [
    | object ↦ (members_of_object v.span >>= λ ms. each_value (validate room) (values ms))
    | array ↦ (elements_of_array v.span >>= λ vs. each_value (validate room) vs)
    | string ↦ (decode_string buf v.span >>= λ t. ok tt)
    | k ↦ ok tt
  ]

  unfoldable pub strict_document : Result ScanError ValueSpan
  strict_document = do d ← scan_document buf; u ← validate (suc max_depth) d; ok d
