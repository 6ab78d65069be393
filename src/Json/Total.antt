-- ===== src/Json/Total.antt =====
-- The fuel of the scanner of crates/muka-split/src/json.rs.
use muka_ai_trim.Common.{
  ℕ, zero, suc, ◌+◌, ◌≤◌, ◌<◌, ◌≡◌, ◌≢◌, refl, arith, Bool, Option, none, some, List, length,
  Result, ok, err, ◌>>=◌, ◌==◌, ltb, ◌||◌, if◌then◌else◌, >>=-ne-err, guard, get_elem?, if-holds,
}
use muka_ai_trim.Digest.{codes}
use muka_ai_trim.Json.{Span}
use muka_ai_trim.Json.Scan.{
  ScanError, out_of_fuel, ValueSpan, ValueKind, byte_at, skip_ws, char_end, escape_end, hex_end,
  string_loop, scan_string, scan_number, scan_literal, Round, closes, goes_on, container_round,
  container_loop, scan_container, value_at, as_kind, scan_value_depth, max_depth, integer_end,
  fraction_end, exponent_end, string, number, object, array, bool, null, eof, syntax, is_hex,
  is_escape, is_digit,
}
use muka_ai_trim.Json.Bounds.{container_round-inside, round_end, byte_at-lt, char_end-inside}

module _ (buf : List ℕ) where
  pub chain-ne-err :
      {A B : Type 0} (m : Result ScanError A) (f : A → Result ScanError B)
      → m ≢ err out_of_fuel
      → ((a : A) → m ≡ ok a → f a ≢ err out_of_fuel)
      → (m >>= f) ≢ err out_of_fuel
  chain-ne-err (ok a) f hm hf = hf a refl
  chain-ne-err {B} (err e) f hm hf =
      >>=-ne-err (err e) (λ a. ◌>>=◌ {B = B} (err (eof 0)) f) hm (λ a q. cc)

  pub byte_at-total : (i : ℕ) → byte_at buf i ≢ err out_of_fuel
  unfolding byte_at
  byte_at-total i = at_elem (get_elem? buf i)
    where
      at_elem : (o : Option ℕ) → (elim o [ none ↦ err (eof i) | some c ↦ ok c ]) ≢ err out_of_fuel
      at_elem none = λ q. cc
      at_elem (some x) = λ q. cc

  hex_end-total : (k j : ℕ) → hex_end buf k j ≢ err out_of_fuel
  unfolding hex_end
  hex_end-total zero j = λ q. cc
  hex_end-total (suc k) j = chain-ne-err (byte_at buf j) _ (byte_at-total j) (λ h hh.
      chain-ne-err (guard (is_hex h) (syntax "bad \\u escape" j)) _ (ground arith)
        (λ u hu. hex_end-total k (j + 1)))

  escape_end-total : (i : ℕ) → escape_end buf i ≢ err out_of_fuel
  unfolding escape_end
  escape_end-total i = chain-ne-err (byte_at buf (i + 1)) _ (byte_at-total (i + 1)) (λ e h.
      if-holds (λ r. r ≢ err out_of_fuel) (is_escape e) (λ q. cc)
        (if-holds (λ r. r ≢ err out_of_fuel) (e == 117) (hex_end-total 4 (i + 2)) (λ q. cc)))

  char_end-total : (i c : ℕ) → char_end buf i c ≢ err out_of_fuel
  unfolding char_end
  char_end-total i c =
      if-holds (λ r. r ≢ err out_of_fuel) (c == 34) (λ q. cc)
        (if-holds (λ r. r ≢ err out_of_fuel) (c == 92)
          (chain-ne-err (escape_end buf i) _ (escape_end-total i) (λ j h q. cc))
          (if-holds (λ r. r ≢ err out_of_fuel) (ltb c 32) (λ q. cc) (λ q. cc)))

  string_loop-total :
      (fuel i : ℕ)
      → i ≤ length buf
      → length buf < i + fuel
      → string_loop buf fuel i ≢ err out_of_fuel
  unfolding string_loop
  string_loop-total zero i inside enough = absurd (omega arith)
  string_loop-total (suc fuel) i inside enough =
      chain-ne-err (byte_at buf i) _ (byte_at-total i) (λ c hc.
        chain-ne-err (char_end buf i c) _ (char_end-total i c)
          (λ o ho. at_char c o ho (byte_at-lt buf i c hc) (string_loop-total fuel)))
    where
      at_char :
          (c : ℕ) (o : Option ℕ)
          → char_end buf i c ≡ ok o
          → suc i ≤ length buf
          → ((j : ℕ)
              → j ≤ length buf
              → length buf < j + fuel
              → string_loop buf fuel j ≢ err out_of_fuel)
          → (elim o [ none ↦ ok (i + 1) | some j ↦ string_loop buf fuel j ]) ≢ err out_of_fuel
      at_char c none ho room next = λ q. cc
      at_char c (some j) ho room next =
          let (a, b) = char_end-inside buf i c j room ho in next j b (omega (arith, a))

  pub scan_string-total : (i : ℕ) → scan_string buf i ≢ err out_of_fuel
  unfolding scan_string
  scan_string-total i = chain-ne-err (byte_at buf i) _ (byte_at-total i) (λ c hc.
      chain-ne-err (guard (c == 34) (syntax "expected string" i)) _ (ground arith) (λ u hu.
        chain-ne-err (string_loop buf (length buf) (i + 1)) _
          (string_loop-total (length buf) (i + 1) (omega (arith, byte_at-lt buf i c hc))
            (omega arith))
          (λ e he q. cc)))

  container_round-total : (close j d b : ℕ) → container_round buf close j d b ≢ err out_of_fuel
  unfolding container_round
  container_round-total close j d b = ground (
    arith,
    chain-ne-err (scan_string buf j) (λ s. ok (goes_on s.end d)) (scan_string-total j)
        (λ s h q. cc),
  )

  container_loop-total :
      (fuel close j d : ℕ)
      → j ≤ length buf
      → length buf < j + fuel
      → container_loop buf fuel close j d ≢ err out_of_fuel
  unfolding container_loop
  container_loop-total zero close j d inside enough = absurd (omega arith)
  container_loop-total (suc fuel) close j d inside enough =
      chain-ne-err (byte_at buf j) _ (byte_at-total j) (λ b hb.
        chain-ne-err (container_round buf close j d b) _ (container_round-total close j d b)
          (λ r hr.
            at_round r (container_round-inside buf close j d b r (byte_at-lt buf j b hb) hr)
              (container_loop-total fuel close)))
    where
      at_round :
          (r : Round)
          → (j < round_end r) × (round_end r ≤ length buf)
          → ((j d : ℕ)
              → j ≤ length buf
              → length buf < j + fuel
              → container_loop buf fuel close j d ≢ err out_of_fuel)
          → (elim r [ closes e ↦ ok e | goes_on j' d' ↦ container_loop buf fuel close j' d' ])
            ≢ err out_of_fuel
      at_round (closes e) i next = λ q. cc
      at_round (goes_on x y) i next = next x y i.1 (omega (arith, i.0))

  scan_container-total : (i c : ℕ) → suc i ≤ length buf → scan_container buf i c ≢ err out_of_fuel
  unfolding scan_container
  scan_container-total i c room =
      chain-ne-err (container_loop buf (length buf) (if c == 123 then 125 else 93) (i + 1) 1) _
        (container_loop-total (length buf) _ (i + 1) 1 (omega (arith, room)) (omega arith))
        (λ e he q. cc)

  scan_number-total : (i : ℕ) → scan_number buf i ≢ err out_of_fuel
  unfolding scan_number integer_end fraction_end exponent_end
  scan_number-total i = chain-ne-err (byte_at buf i) _ (byte_at-total i) (λ c hc.
      chain-ne-err (byte_at buf (if c == 45 then i + 1 else i)) _ (byte_at-total _) (λ f hf.
        chain-ne-err (integer_end buf (if c == 45 then i + 1 else i) f) _ (ground arith) (λ x hx.
          chain-ne-err (fraction_end buf x) _ (ground arith)
            (λ y hy. chain-ne-err (exponent_end buf y) _ (ground arith) (λ z hz q. cc)))))

  scan_literal-total : (i : ℕ) (text : List ℕ) → scan_literal buf i text ≢ err out_of_fuel
  unfolding scan_literal
  scan_literal-total i text = ground arith

  as_kind-total :
      (k : ValueKind) (r : Result ScanError Span)
      → r ≢ err out_of_fuel
      → as_kind buf k r ≢ err out_of_fuel
  as_kind-total k r h = chain-ne-err r _ h (λ s hs q. cc)

  value_at-total : (i c : ℕ) → suc i ≤ length buf → value_at buf i c ≢ err out_of_fuel
  unfolding value_at
  value_at-total i c room = either (c == 34) (as_kind-total string _ (scan_string-total i)) (
      either (c == 123) (as_kind-total object _ (scan_container-total i c room)) (
        either (c == 91) (as_kind-total array _ (scan_container-total i c room)) (
          either (c == 116) (as_kind-total bool _ (scan_literal-total i (codes "true"))) (
            either (c == 102) (as_kind-total bool _ (scan_literal-total i (codes "false"))) (
              either (c == 110) (as_kind-total null _ (scan_literal-total i (codes "null"))) (
                either ((c == 45) || is_digit c) (as_kind-total number _ (scan_number-total i))
                  (λ q. cc)))))))
    where
      either :
          (t : Bool) {x y : Result ScanError ValueSpan}
          → x ≢ err out_of_fuel
          → y ≢ err out_of_fuel
          → (if t then x else y) ≢ err out_of_fuel
      either t = if-holds (λ r. r ≢ err out_of_fuel) t

  -- The scan of a value always ends: it never runs out of rounds.
  pub scan_value_depth-ne-out_of_fuel :
      (pos depth : ℕ) → scan_value_depth buf pos depth ≢ err out_of_fuel
  unfolding scan_value_depth
  scan_value_depth-ne-out_of_fuel pos depth =
      if-holds (λ r. r ≢ err out_of_fuel) (ltb max_depth depth) (λ q. cc)
        (chain-ne-err (byte_at buf (skip_ws buf pos)) _ (byte_at-total (skip_ws buf pos))
          (λ c hc. value_at-total (skip_ws buf pos) c (byte_at-lt buf (skip_ws buf pos) c hc)))
