-- ===== src/Json/Values.antt =====
-- The spans of containers and values in crates/muka-split/src/json.rs.
use muka_ai_trim.Common.{
  ℕ, zero, suc, ◌+◌, ◌≤◌, ◌<◌, ◌≡◌, arith, Bool, List, length, Result, ok, >>=-eq-ok, unless-eq-ok,
  ok-injective, ◌==◌, ap, ltb, ◌||◌, if◌then◌else◌, subst, if-holds,
}
use muka_ai_trim.Digest.{codes}
use muka_ai_trim.Json.{Span}
use muka_ai_trim.Json.Scan.{
  ScanError, ValueSpan, ValueKind, byte_at, skip_ws, scan_literal, Round, closes, goes_on,
  container_round, container_loop, scan_container, value_at, as_kind, scan_value_depth, max_depth,
  string, number, object, array, bool, null, is_digit,
}
use muka_ai_trim.Json.Bounds.{
  StandsAt, scan_string-StandsAt, scan_number-StandsAt, scan_literal-StandsAt,
  container_round-inside, round_end, byte_at-lt,
}

module _ (buf : List ℕ) where
  container_loop-inside :
      (fuel close j d e : ℕ) → container_loop buf fuel close j d ≡ ok e → (j < e) × (e ≤ length buf)
  unfolding container_loop
  container_loop-inside zero close j d e h = cc
  container_loop-inside (suc fuel) close j d e h =
      let (b, hb, h₁) = >>=-eq-ok (byte_at buf j) _ h in
      let (r, hr, h₂) = >>=-eq-ok (container_round buf close j d b) _ h₁ in
      at_round r (container_round-inside buf close j d b r (byte_at-lt buf j b hb) hr) h₂
        (λ j d. container_loop-inside fuel close j d e)
    where
      at_round :
          (r : Round)
          → (j < round_end r) × (round_end r ≤ length buf)
          → (elim r [ closes e ↦ ok e | goes_on j' d' ↦ container_loop buf fuel close j' d' ])
            ≡ ok e
          → ((j d : ℕ) → container_loop buf fuel close j d ≡ ok e → (j < e) × (e ≤ length buf))
          → (j < e) × (e ≤ length buf)
      at_round (closes x) i q next = ground (arith, i, ok-injective q)
      at_round (goes_on x y) i q next = ground (arith, i, next x y q)

  scan_container-StandsAt : (i c : ℕ) (s : Span) → scan_container buf i c ≡ ok s → StandsAt buf i s
  unfolding scan_container
  scan_container-StandsAt i c s h =
      let (e, he, h₁) =
        >>=-eq-ok (container_loop buf (length buf) (if c == 123 then 125 else 93) (i + 1) 1) _ h in
      let (a, b) = container_loop-inside _ _ (i + 1) 1 e he in
      let starts : i ≡ s.start = ap (λ (t : Span). t.start) (ok-injective h₁) in
      let ends : e ≡ s.end = ap (λ (t : Span). t.end) (ok-injective h₁) in
      (omega (arith, starts), omega (arith, ends, a), omega (arith, ends, b))

  as_kind-StandsAt :
      (k : ValueKind) (r : Result ScanError Span) (i : ℕ) (v : ValueSpan)
      → ((s : Span) → r ≡ ok s → StandsAt buf i s)
      → as_kind buf k r ≡ ok v
      → StandsAt buf i v.span
  as_kind-StandsAt k r i v stands h =
      let (s, hs, q) = >>=-eq-ok r _ h in
      let same : s ≡ v.span = ap (λ (v : ValueSpan). v.span) (ok-injective q) in
      subst (StandsAt buf i) same (stands s hs)

  value_at-StandsAt : (i c : ℕ) (v : ValueSpan) → value_at buf i c ≡ ok v → StandsAt buf i v.span
  unfolding value_at
  value_at-StandsAt i c v =
      either (c == 34) (as_kind-StandsAt string _ i v (scan_string-StandsAt buf i)) (
        either (c == 123) (as_kind-StandsAt object _ i v (scan_container-StandsAt i c)) (
          either (c == 91) (as_kind-StandsAt array _ i v (scan_container-StandsAt i c)) (
            either (c == 116) (literal bool (codes "true") (omega arith)) (
              either (c == 102) (literal bool (codes "false") (omega arith)) (
                either (c == 110) (literal null (codes "null") (omega arith)) (
                  either ((c == 45) || is_digit c)
                    (as_kind-StandsAt number _ i v (scan_number-StandsAt buf i)) (λ q. cc)))))))
    where
      either :
          (t : Bool) {x y : Result ScanError ValueSpan}
          → (x ≡ ok v → StandsAt buf i v.span)
          → (y ≡ ok v → StandsAt buf i v.span)
          → (if t then x else y) ≡ ok v
          → StandsAt buf i v.span
      either t = if-holds (λ r. r ≡ ok v → StandsAt buf i v.span) t

      literal :
          (k : ValueKind) (text : List ℕ)
          → 0 < length text
          → as_kind buf k (scan_literal buf i text) ≡ ok v
          → StandsAt buf i v.span
      literal k text some_text =
          as_kind-StandsAt k (scan_literal buf i text) i v
            (λ s. scan_literal-StandsAt buf i text s some_text)

  -- A value that the scanner finds starts at the first byte behind `pos` that is not blank, is not
  -- empty, and ends inside the buffer.
  pub scan_value_depth-StandsAt :
      (pos depth : ℕ) (v : ValueSpan)
      → scan_value_depth buf pos depth ≡ ok v
      → (pos ≤ v.span.start) × StandsAt buf (skip_ws buf pos) v.span
  unfolding scan_value_depth skip_ws
  scan_value_depth-StandsAt pos depth v h =
      let (_, h₁) = unless-eq-ok (ltb max_depth depth) _ _ h in
      let (c, _, h₂) = >>=-eq-ok (byte_at buf (skip_ws buf pos)) _ h₁ in
      let (a, b, e) = value_at-StandsAt (skip_ws buf pos) c v h₂ in (omega (arith, a), (a, b, e))
