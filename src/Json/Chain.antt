-- ===== src/Json/Chain.antt =====
-- The values of an object and of an array, one behind the other, in crates/muka-split/src/json.rs.
use muka_ai_trim.Common.{
  ℕ, zero, suc, ◌+◌, ◌≤◌, ◌<◌, ◌≡◌, refl, ap, subst, arith, Bool, true, false, Option, none, some,
  List, [], ◌∷◌, length, ok, >>=-eq-ok, ◌>>=◌, guard-eq-ok, unless-eq-ok, ok-injective, ltb, ltb→ge,
  ◌==◌, if◌then◌else◌,
}
use muka_ai_trim.Json.{Span}
use muka_ai_trim.Json.Scan.{ValueSpan, byte_at, skip_ws, scan_string, scan_value_depth}
use muka_ai_trim.Json.Text.{decode_string}
use muka_ai_trim.Json.Bounds.{scan_string-StandsAt, byte_at-lt}
use muka_ai_trim.Json.Values.{scan_value_depth-StandsAt}
use muka_ai_trim.Json.Members.{
  Member, item_end, member_at, members_loop, members_of_object, element_at, elements_loop,
  elements_of_array, is_empty_at, values,
}
use Prim.Native.String.{String}

-- Spans one behind the other from `pos` on, none empty, all ending by `stop` and in the buffer.
abbrev pub Chain : List ℕ → ℕ → ℕ → List ValueSpan → Type 0
Chain buf stop pos [] = Unit
Chain buf stop pos (v ∷ vs) =
    (pos ≤ v.span.start)
    × (v.span.start < v.span.end)
    × (v.span.end ≤ stop)
    × (v.span.end ≤ length buf)
    × Chain buf stop v.span.end vs

-- An item of the list, read from `i` on, and where the next one is read.
pub record IsItem (buf : List ℕ) (stop i : ℕ) (s : Span) (next : Option ℕ) : Type 0 where
  pub behind : i ≤ s.start
  pub some_bytes : s.start < s.end
  pub within : s.end ≤ stop
  pub inside : s.end ≤ length buf
  pub goes_on : (j : ℕ) → next ≡ some j → (s.end < j) × (j ≤ length buf)

module _ (buf : List ℕ) where
  skip_ws-ge : (i : ℕ) → i ≤ skip_ws buf i
  unfolding skip_ws
  skip_ws-ge i = omega arith

  item_end-goes_on :
      (close stop i : ℕ) (trailing expected : String) (next : Option ℕ)
      → item_end buf close stop i trailing expected ≡ ok next
      → (j : ℕ) → next ≡ some j
      → (i < j) × (j ≤ length buf)
  unfolding item_end
  item_end-goes_on close stop i trailing expected next h j e =
      let (c, hc, h₁) = >>=-eq-ok (byte_at buf (skip_ws buf i)) _ h in
      ground (arith, h₁, e, byte_at-lt buf (skip_ws buf i) c hc, skip_ws-ge i)

  pub member_at-IsItem :
      (obj : Span) (i : ℕ) (m : Member) (next : Option ℕ)
      → member_at buf obj i ≡ ok (m, next)
      → IsItem buf obj.end i m.value.span next
  unfolding member_at
  member_at-IsItem obj i m next h =
      let (ks, hk, h₁) = >>=-eq-ok (scan_string buf (skip_ws buf i)) _ h in
      let (key, _, h₂) = >>=-eq-ok (decode_string buf ks) _ h₁ in
      let (c, _, h₃) = >>=-eq-ok (byte_at buf (skip_ws buf ks.end)) _ h₂ in
      let (_, h₄) = guard-eq-ok (c == 58) _ _ h₃ in
      let (v, hv, h₅) = >>=-eq-ok (scan_value_depth buf (skip_ws buf ks.end + 1) 1) _ h₄ in
      let (fits, h₆) = unless-eq-ok (ltb obj.end v.span.end) _ _ h₅ in
      let (n, hn, h₇) =
        >>=-eq-ok (item_end buf 125 obj.end v.span.end "trailing bytes in object" "expected , or }")
          _ h₆ in
      let same_v : v ≡ m.value = ap (λ (t : Member × Option ℕ). t.0.value) (ok-injective h₇) in
      let same_n : n ≡ next = ap (λ (t : Member × Option ℕ). t.1) (ok-injective h₇) in
      let (a, b, d) = scan_string-StandsAt buf (skip_ws buf i) ks hk in
      let (a', s) = scan_value_depth-StandsAt buf (skip_ws buf ks.end + 1) 1 v hv in
      subst (λ (w : ValueSpan). IsItem buf obj.end i w.span next) same_v
        (subst (λ (o : Option ℕ). IsItem buf obj.end i v.span o) same_n
          (record {
            behind = omega (arith, skip_ws-ge i, skip_ws-ge ks.end, a', b);
            some_bytes = omega (arith, s.0, s.1);
            within = ltb→ge obj.end v.span.end fits;
            inside = s.2;
            goes_on = item_end-goes_on 125 obj.end v.span.end _ _ n hn;
          }))

  pub element_at-IsItem :
      (arr : Span) (i : ℕ) (w : ValueSpan) (next : Option ℕ)
      → element_at buf arr i ≡ ok (w, next)
      → IsItem buf arr.end i w.span next
  unfolding element_at
  element_at-IsItem arr i w next h =
      let (v, hv, h₁) = >>=-eq-ok (scan_value_depth buf i 1) _ h in
      let (fits, h₂) = unless-eq-ok (ltb arr.end v.span.end) _ _ h₁ in
      let (n, hn, h₃) =
        >>=-eq-ok (item_end buf 93 arr.end v.span.end "trailing bytes in array" "expected , or ]") _
          h₂ in
      let same_v : v ≡ w = ap (λ (t : ValueSpan × Option ℕ). t.0) (ok-injective h₃) in
      let same_n : n ≡ next = ap (λ (t : ValueSpan × Option ℕ). t.1) (ok-injective h₃) in
      let (a, s) = scan_value_depth-StandsAt buf i 1 v hv in
      subst (λ (w : ValueSpan). IsItem buf arr.end i w.span next) same_v
        (subst (λ (o : Option ℕ). IsItem buf arr.end i v.span o) same_n
          (record {
            behind = a;
            some_bytes = omega (arith, s.0, s.1);
            within = ltb→ge arr.end v.span.end fits;
            inside = s.2;
            goes_on = item_end-goes_on 93 arr.end v.span.end _ _ n hn;
          }))

  Chain-later :
      (stop pos pos' : ℕ) (vs : List ValueSpan)
      → pos ≤ pos'
      → Chain buf stop pos' vs
      → Chain buf stop pos vs
  Chain-later stop pos pos' [] le h = tt
  Chain-later stop pos pos' (v ∷ vs) le (a, b, c, d, h) = (omega (arith, le, a), b, c, d, h)

  members_loop-Chain :
      (fuel : ℕ) (obj : Span) (i : ℕ) (ms : List Member)
      → members_loop buf fuel obj i ≡ ok ms
      → Chain buf obj.end i (values buf ms)
  unfolding members_loop
  members_loop-Chain zero obj i ms h = cc
  members_loop-Chain (suc fuel) obj i ms h =
      let ((m, next), hm, h₁) = >>=-eq-ok (member_at buf obj i) _ h in
      at_next next m (member_at-IsItem obj i m next hm) h₁ (λ j. members_loop-Chain fuel obj j)
    where
      at_next :
          (o : Option ℕ) (m : Member)
          → IsItem buf obj.end i m.value.span o
          → (elim o [
            | none ↦ ok (m ∷ [])
            | some j ↦ (members_loop buf fuel obj j >>= λ ms. ok (m ∷ ms))
          ])
            ≡ ok ms
          → ((j : ℕ) (ns : List Member)
              → members_loop buf fuel obj j ≡ ok ns
              → Chain buf obj.end j (values buf ns))
          → Chain buf obj.end i (values buf ms)
      at_next none m it q next =
          subst (λ (l : List Member). Chain buf obj.end i (values buf l)) (ok-injective q)
            (it.behind, it.some_bytes, it.within, it.inside, tt)
      at_next (some j) m it q next =
          let (ns, hns, q') = >>=-eq-ok (members_loop buf fuel obj j) _ q in
          subst (λ (l : List Member). Chain buf obj.end i (values buf l)) (ok-injective q')
            (
              it.behind,
              it.some_bytes,
              it.within,
              it.inside,
              Chain-later obj.end m.value.span.end j (values buf ns)
                  (omega (arith, (it.goes_on j refl).0)) (next j ns hns),
            )

  elements_loop-Chain :
      (fuel : ℕ) (arr : Span) (i : ℕ) (vs : List ValueSpan)
      → elements_loop buf fuel arr i ≡ ok vs
      → Chain buf arr.end i vs
  unfolding elements_loop
  elements_loop-Chain zero arr i vs h = cc
  elements_loop-Chain (suc fuel) arr i vs h =
      let ((v, next), hv, h₁) = >>=-eq-ok (element_at buf arr i) _ h in
      at_next next v (element_at-IsItem arr i v next hv) h₁ (λ j. elements_loop-Chain fuel arr j)
    where
      at_next :
          (o : Option ℕ) (v : ValueSpan)
          → IsItem buf arr.end i v.span o
          → (elim o [
            | none ↦ ok (v ∷ [])
            | some j ↦ (elements_loop buf fuel arr j >>= λ vs. ok (v ∷ vs))
          ])
            ≡ ok vs
          → ((j : ℕ) (ws : List ValueSpan)
              → elements_loop buf fuel arr j ≡ ok ws
              → Chain buf arr.end j ws)
          → Chain buf arr.end i vs
      at_next none v it q next =
          subst (Chain buf arr.end i) (ok-injective q)
            (it.behind, it.some_bytes, it.within, it.inside, tt)
      at_next (some j) v it q next =
          let (ws, hws, q') = >>=-eq-ok (elements_loop buf fuel arr j) _ q in
          subst (Chain buf arr.end i) (ok-injective q') (
            it.behind,
            it.some_bytes,
            it.within,
            it.inside,
            Chain-later arr.end v.span.end j ws (omega (arith, (it.goes_on j refl).0))
                (next j ws hws),
          )

  -- The values of the members of an object stand one behind the other: each starts at or behind
  -- the end of the one before, is not empty, and ends no later than the object.
  pub members_of_object-Chain :
      (obj : Span) (ms : List Member)
      → members_of_object buf obj ≡ ok ms
      → Chain buf obj.end (obj.start + 1) (values buf ms)
  unfolding members_of_object
  members_of_object-Chain obj ms h =
      let (c, hc, h₁) = >>=-eq-ok (byte_at buf obj.start) _ h in
      let (_, h₂) = guard-eq-ok (c == 123) _ _ h₁ in
      let (e, he, h₃) =
        >>=-eq-ok (is_empty_at buf 125 obj.end (skip_ws buf (obj.start + 1))) _ h₂ in
      at_empty e h₃
    where
      at_empty :
          (e : Bool)
          → (if e then ok [] else members_loop buf (length buf) obj (skip_ws buf (obj.start + 1)))
            ≡ ok ms
          → Chain buf obj.end (obj.start + 1) (values buf ms)
      at_empty true q =
          subst (λ (l : List Member). Chain buf obj.end (obj.start + 1) (values buf l))
            (ok-injective q) tt
      at_empty false q =
          Chain-later obj.end (obj.start + 1) (skip_ws buf (obj.start + 1)) (values buf ms)
            (skip_ws-ge (obj.start + 1))
            (members_loop-Chain (length buf) obj (skip_ws buf (obj.start + 1)) ms q)

  -- The elements of an array stand one behind the other: each starts at or behind the end of the
  -- one before, is not empty, and ends no later than the array.
  pub elements_of_array-Chain :
      (arr : Span) (vs : List ValueSpan)
      → elements_of_array buf arr ≡ ok vs
      → Chain buf arr.end (arr.start + 1) vs
  unfolding elements_of_array
  elements_of_array-Chain arr vs h =
      let (c, hc, h₁) = >>=-eq-ok (byte_at buf arr.start) _ h in
      let (_, h₂) = guard-eq-ok (c == 91) _ _ h₁ in
      let (e, he, h₃) = >>=-eq-ok (is_empty_at buf 93 arr.end (skip_ws buf (arr.start + 1))) _ h₂ in
      at_empty e h₃
    where
      at_empty :
          (e : Bool)
          → (if e then ok [] else elements_loop buf (length buf) arr (skip_ws buf (arr.start + 1)))
            ≡ ok vs
          → Chain buf arr.end (arr.start + 1) vs
      at_empty true q = subst (Chain buf arr.end (arr.start + 1)) (ok-injective q) tt
      at_empty false q =
          Chain-later arr.end (arr.start + 1) (skip_ws buf (arr.start + 1)) vs
            (skip_ws-ge (arr.start + 1))
            (elements_loop-Chain (length buf) arr (skip_ws buf (arr.start + 1)) vs q)
