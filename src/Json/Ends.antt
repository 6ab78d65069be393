-- ===== src/Json/Ends.antt =====
-- The fuel of the loops over objects and arrays in crates/muka-split/src/json.rs.
use muka_ai_trim.Common.{
  ℕ, zero, suc, ◌+◌, ◌≤◌, ◌<◌, ◌≡◌, ◌≢◌, refl, arith, Option, none, some, List, [], ◌∷◌, length, ok,
  err, ◌>>=◌, guard, ltb, ◌==◌, if-holds,
}
use muka_ai_trim.Json.{Span}
use muka_ai_trim.Json.Bounds.{byte_at-lt, count-inside}
use muka_ai_trim.Json.Chain.{member_at-IsItem, element_at-IsItem}
use muka_ai_trim.Json.Members.{
  Member, item_end, member_at, members_loop, members_of_object, element_at, elements_loop,
  elements_of_array, is_empty_at,
}
use muka_ai_trim.Json.Scan.{
  syntax, out_of_fuel, ValueSpan, byte_at, skip_ws, scan_string, scan_value_depth,
}
use muka_ai_trim.Json.Text.{decode_string}
use muka_ai_trim.Json.Total.{
  chain-ne-err, byte_at-total, scan_string-total, scan_value_depth-ne-out_of_fuel,
}
use Prim.Native.String.{String}
use muka_ai_trim.Json.Strings.{guard-total, decode_string-total}

module _ (buf : List ℕ) where
  item_end-total :
      (close stop i : ℕ) (trailing expected : String)
      → item_end buf close stop i trailing expected ≢ err out_of_fuel
  unfolding item_end
  item_end-total close stop i trailing expected =
      chain-ne-err buf (byte_at buf (skip_ws buf i)) _ (byte_at-total buf (skip_ws buf i)) (λ c hc.
        if-holds (λ r. r ≢ err out_of_fuel) (c == 44) (λ q. cc)
          (if-holds (λ r. r ≢ err out_of_fuel) (c == close)
            (if-holds (λ r. r ≢ err out_of_fuel) (skip_ws buf i + 1 == stop) (λ q. cc) (λ q. cc))
            (λ q. cc)))

  member_at-total : (obj : Span) (i : ℕ) → member_at buf obj i ≢ err out_of_fuel
  unfolding member_at
  member_at-total obj i =
      chain-ne-err buf (scan_string buf (skip_ws buf i)) _ (scan_string-total buf (skip_ws buf i))
        (λ ks _. chain-ne-err buf (decode_string buf ks) _ (decode_string-total buf ks) (λ key _.
          chain-ne-err buf (byte_at buf (skip_ws buf ks.end)) _ (byte_at-total buf _) (λ c _.
            chain-ne-err buf (guard (c == 58) (syntax "expected colon" (skip_ws buf ks.end))) _
              (guard-total buf (c == 58) _ (λ e. cc))
              (λ u _.
                chain-ne-err buf (scan_value_depth buf (skip_ws buf ks.end + 1) 1) _
                  (scan_value_depth-ne-out_of_fuel buf _ 1)
                  (λ v _.
                    if-holds (λ r. r ≢ err out_of_fuel) (ltb obj.end v.span.end) (λ q. cc)
                      (chain-ne-err buf
                        (item_end buf 125 obj.end v.span.end "trailing bytes in object"
                          "expected , or }")
                        _ (item_end-total 125 obj.end v.span.end _ _) (λ n _ q. cc)))))))

  element_at-total : (arr : Span) (i : ℕ) → element_at buf arr i ≢ err out_of_fuel
  unfolding element_at
  element_at-total arr i =
      chain-ne-err buf (scan_value_depth buf i 1) _ (scan_value_depth-ne-out_of_fuel buf i 1)
        (λ v _.
          if-holds (λ r. r ≢ err out_of_fuel) (ltb arr.end v.span.end) (λ q. cc)
            (chain-ne-err buf
              (item_end buf 93 arr.end v.span.end "trailing bytes in array" "expected , or ]") _
              (item_end-total 93 arr.end v.span.end _ _) (λ n _ q. cc)))

  members_loop-total :
      (fuel : ℕ) (obj : Span) (i : ℕ)
      → i ≤ length buf
      → length buf < i + fuel
      → members_loop buf fuel obj i ≢ err out_of_fuel
  unfolding members_loop
  members_loop-total zero obj i inside enough = absurd (omega arith)
  members_loop-total (suc fuel) obj i inside enough =
      chain-ne-err buf (member_at buf obj i) _ (member_at-total obj i) (λ p hp.
        at_next p.0 p.1 (λ j e.
          let it = member_at-IsItem buf obj i p.0 p.1 hp in
          let (ahead, in_buf) = it.goes_on j e in
          members_loop-total fuel obj j in_buf
            (omega (arith, enough, ahead, it.behind, it.some_bytes))))
    where
      at_next :
          (m : Member) (next : Option ℕ)
          → ((j : ℕ) → next ≡ some j → members_loop buf fuel obj j ≢ err out_of_fuel)
          → elim next [
            | none ↦ ok (m ∷ [])
            | some j ↦ (members_loop buf fuel obj j >>= λ ms. ok (m ∷ ms))
          ]
            ≢ err out_of_fuel
      at_next m none h = λ q. cc
      at_next m (some j) h =
          chain-ne-err buf (members_loop buf fuel obj j) _ (h j refl) (λ ms e q. cc)

  elements_loop-total :
      (fuel : ℕ) (arr : Span) (i : ℕ)
      → i ≤ length buf
      → length buf < i + fuel
      → elements_loop buf fuel arr i ≢ err out_of_fuel
  unfolding elements_loop
  elements_loop-total zero arr i inside enough = absurd (omega arith)
  elements_loop-total (suc fuel) arr i inside enough =
      chain-ne-err buf (element_at buf arr i) _ (element_at-total arr i) (λ p hp.
        at_next p.0 p.1 (λ j e.
          let it = element_at-IsItem buf arr i p.0 p.1 hp in
          let (ahead, in_buf) = it.goes_on j e in
          elements_loop-total fuel arr j in_buf
            (omega (arith, enough, ahead, it.behind, it.some_bytes))))
    where
      at_next :
          (v : ValueSpan) (next : Option ℕ)
          → ((j : ℕ) → next ≡ some j → elements_loop buf fuel arr j ≢ err out_of_fuel)
          → elim next [
            | none ↦ ok (v ∷ [])
            | some j ↦ (elements_loop buf fuel arr j >>= λ vs. ok (v ∷ vs))
          ]
            ≢ err out_of_fuel
      at_next v none h = λ q. cc
      at_next v (some j) h =
          chain-ne-err buf (elements_loop buf fuel arr j) _ (h j refl) (λ vs e q. cc)

  is_empty_at-total : (close stop i : ℕ) → is_empty_at buf close stop i ≢ err out_of_fuel
  unfolding is_empty_at
  is_empty_at-total close stop i =
      if-holds (λ r. r ≢ err out_of_fuel) (ltb i stop)
        (chain-ne-err buf (byte_at buf i) _ (byte_at-total buf i) (λ c hc q. cc)) (λ q. cc)

  -- The first item stands in the buffer, behind its bracket.
  first_item :
      (s : Span) (c : ℕ)
      → byte_at buf s.start ≡ ok c
      → (1 ≤ skip_ws buf (s.start + 1)) × (skip_ws buf (s.start + 1) ≤ length buf)
  unfolding skip_ws
  first_item s c h =
      let lt = byte_at-lt buf s.start c h in
      (omega arith, count-inside buf _ (s.start + 1) (omega (arith, lt)))

  -- The fuel of the loops over a string, an object and an array is enough, whatever the bytes and the
  -- span: the decoding of a string, the members of an object and the elements of an array each come
  -- to a result, to an error of the source, or to the panic of a slice outside the buffer.
  pub members_of_object-ends :
      (s : Span)
      → (decode_string buf s ≢ err out_of_fuel)
        × (members_of_object buf s ≢ err out_of_fuel)
        × (elements_of_array buf s ≢ err out_of_fuel)
  unfolding members_of_object elements_of_array
  members_of_object-ends s = (
    decode_string-total buf s,
    chain-ne-err buf (byte_at buf s.start) _ (byte_at-total buf s.start) (λ c hc.
        let (a, b) = first_item s c hc in
        chain-ne-err buf (guard (c == 123) (syntax "not an object" s.start)) _
          (guard-total buf (c == 123) _ (λ e. cc))
          (λ u _.
            chain-ne-err buf (is_empty_at buf 125 s.end (skip_ws buf (s.start + 1))) _
              (is_empty_at-total 125 s.end _)
              (λ t _.
                if-holds (λ r. r ≢ err out_of_fuel) t (λ q. cc)
                  (members_loop-total (length buf) s _ b (omega (arith, a)))))),
    chain-ne-err buf (byte_at buf s.start) _ (byte_at-total buf s.start) (λ c hc.
        let (a, b) = first_item s c hc in
        chain-ne-err buf (guard (c == 91) (syntax "not an array" s.start)) _
          (guard-total buf (c == 91) _ (λ e. cc))
          (λ u _.
            chain-ne-err buf (is_empty_at buf 93 s.end (skip_ws buf (s.start + 1))) _
              (is_empty_at-total 93 s.end _)
              (λ t _.
                if-holds (λ r. r ≢ err out_of_fuel) t (λ q. cc)
                  (elements_loop-total (length buf) s _ b (omega (arith, a)))))),
  )
