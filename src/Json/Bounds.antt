-- ===== src/Json/Bounds.antt =====
-- The spans of strings, numbers and literals in crates/muka-split/src/json.rs.
use muka_ai_trim.Common.{
  ℕ, zero, suc, ◌+◌, ◌≤◌, ◌<◌, ◌≡◌, refl, arith, Bool, true, false, Option, none, some, List, [],
  ◌∷◌, length, not, bytes_eq, drop, take, length-drop, get_elem?, get_elem?-lt, Result, ok, err,
  >>=-eq-ok, ◌>>=◌, guard-eq-ok, unless-eq-ok, ok-injective, ◌==◌, ap, ltb, ◌||◌, if◌then◌else◌,
}
use muka_ai_trim.Json.{Span}
use muka_ai_trim.Json.Scan.{
  ScanError, syntax, eof, count_while, byte_at, hex_end, escape_end, char_end, string_loop,
  scan_string, digits_end, some_digits, sign_end, integer_end, fraction_end, exponent_end,
  scan_number, scan_literal, Round, closes, goes_on, container_round, is_hex, is_digit, byte_is,
}
use Prim.Native.String.{String}

count_while-le : (p : ℕ → Bool) (xs : List ℕ) → count_while p xs ≤ length xs
unfolding count_while
count_while-le p [] = omega arith
count_while-le p (c ∷ cs) = ground (arith, count_while-le p cs)

abbrev pub round_end : Round → ℕ
round_end (closes e) = e
round_end (goes_on j d) = j

some-injective : {A : Type 0} {a b : A} → some a ≡ some b → a ≡ b
some-injective q = cc

count_while_pos :
    (p : ℕ → Bool) (xs : List ℕ) (i c : ℕ)
    → get_elem? xs i ≡ some c
    → p c ≡ true
    → 1 ≤ count_while p (drop i xs)
unfolding count_while
count_while_pos p [] i c h hc = cc
count_while_pos p (x ∷ xs) zero c h hc =
    let same : x ≡ c = some-injective h in rw (same, hc) (omega arith)
count_while_pos p (x ∷ xs) (suc i) c h hc = count_while_pos p xs i c h hc

module _ (buf : List ℕ) where
  pub byte_at-lt : (i c : ℕ) → byte_at buf i ≡ ok c → suc i ≤ length buf
  unfolding byte_at
  byte_at-lt i c h = at_elem (get_elem? buf i) refl h
    where
      at_elem :
          (o : Option ℕ)
          → get_elem? buf i ≡ o
          → ◌≡◌ {A = Result ScanError ℕ} (elim o [ none ↦ err (eof i) | some c ↦ ok c ]) (ok c)
          → suc i ≤ length buf
      at_elem none e q = cc
      at_elem (some x) e q = get_elem?-lt buf i x e

  pub count-inside :
      (p : ℕ → Bool) (i : ℕ) → i ≤ length buf → i + count_while p (drop i buf) ≤ length buf
  count-inside p i h = omega (arith, count_while-le p (drop i buf), length-drop i buf)

  hex_end-inside :
      (k j e : ℕ) → j ≤ length buf → hex_end buf k j ≡ ok e → (j ≤ e) × (e ≤ length buf)
  unfolding hex_end
  hex_end-inside zero j e i h = omega (arith, ok-injective h)
  hex_end-inside (suc k) j e i h =
      let (c, hc, h₁) = >>=-eq-ok (byte_at buf j) _ h in
      let (_, h₂) = guard-eq-ok (is_hex c) _ _ h₁ in
      let (a, b) = hex_end-inside k (j + 1) e (omega (arith, byte_at-lt j c hc)) h₂ in
      (omega (arith, a), b)

  escape_end-inside : (i j : ℕ) → escape_end buf i ≡ ok j → (i < j) × (j ≤ length buf)
  unfolding escape_end
  escape_end-inside i j h =
      let (e, he, h₁) = >>=-eq-ok (byte_at buf (i + 1)) _ h in
      let room = byte_at-lt (i + 1) e he in ground (arith, room, h₁, hex_end-inside 4 (i + 2) j)

  pub char_end-inside :
      (i c j : ℕ) → suc i ≤ length buf → char_end buf i c ≡ ok (some j) → (i < j) × (j ≤ length buf)
  unfolding char_end
  char_end-inside i c j room h = ground (arith, h, escaped)
    where
      escaped : (escape_end buf i >>= λ k. ok (some k)) ≡ ok (some j) → (i < j) × (j ≤ length buf)
      escaped q =
          let (k, hk, q') = >>=-eq-ok (escape_end buf i) _ q in
          let same : k ≡ j = some-injective (ok-injective q') in
          let (a, b) = escape_end-inside i k hk in (omega (arith, same, a), omega (arith, same, b))

  string_loop-inside : (fuel i e : ℕ) → string_loop buf fuel i ≡ ok e → (i < e) × (e ≤ length buf)
  unfolding string_loop
  string_loop-inside zero i e h = cc
  string_loop-inside (suc fuel) i e h =
      let (c, hc, h₁) = >>=-eq-ok (byte_at buf i) _ h in
      let (o, ho, h₂) = >>=-eq-ok (char_end buf i c) _ h₁ in
      at_char c o ho h₂ (byte_at-lt i c hc) (λ j. string_loop-inside fuel j e)
    where
      at_char :
          (c : ℕ) (o : Option ℕ)
          → char_end buf i c ≡ ok o
          → (elim o [ none ↦ ok (i + 1) | some j ↦ string_loop buf fuel j ]) ≡ ok e
          → suc i ≤ length buf
          → ((j : ℕ) → string_loop buf fuel j ≡ ok e → (j < e) × (e ≤ length buf))
          → (i < e) × (e ≤ length buf)
      at_char c none ho q room next = omega (arith, ok-injective q)
      at_char c (some j) ho q room next =
          let (a, b) = char_end-inside i c j room ho in
          let (a', b') = next j q in (omega (arith, a, a'), b')

  -- A span that starts at `i`, is not empty and lies in the buffer.
  abbrev pub StandsAt : ℕ → Span → Type 0
  StandsAt i s = (s.start ≡ i) × (i < s.end) × (s.end ≤ length buf)

  pub scan_string-StandsAt : (i : ℕ) (s : Span) → scan_string buf i ≡ ok s → StandsAt i s
  unfolding scan_string
  scan_string-StandsAt i s h =
      let (c, hc, h₁) = >>=-eq-ok (byte_at buf i) _ h in
      let (_, h₂) = guard-eq-ok (c == 34) _ _ h₁ in
      let (e, he, h₃) = >>=-eq-ok (string_loop buf (length buf) (i + 1)) _ h₂ in
      let (a, b) = string_loop-inside (length buf) (i + 1) e he in
      let starts : i ≡ s.start = ap (λ (t : Span). t.start) (ok-injective h₃) in
      let ends : e ≡ s.end = ap (λ (t : Span). t.end) (ok-injective h₃) in
      (omega (arith, starts), omega (arith, ends, a), omega (arith, ends, b))

  digits-inside : (i : ℕ) → i ≤ length buf → digits_end buf i ≤ length buf
  digits-inside i h = count-inside is_digit i h

  byte_is-lt : (i c : ℕ) → byte_is buf i c ≡ true → suc i ≤ length buf
  byte_is-lt i c h = at_elem (get_elem? buf i) refl h
    where
      at_elem :
          (o : Option ℕ)
          → get_elem? buf i ≡ o
          → (elim o [ none ↦ false | some x ↦ x == c ]) ≡ true
          → suc i ≤ length buf
      at_elem none e q = cc
      at_elem (some x) e q = get_elem?-lt buf i x e

  some_digits-inside :
      (i e : ℕ) (w : String)
      → i ≤ length buf
      → some_digits buf i w ≡ ok e
      → (i ≤ e) × (e ≤ length buf)
  some_digits-inside i e w i' h = ground (arith, h, digits-inside i i')

  integer_end-inside :
      (i c e : ℕ) → suc i ≤ length buf → integer_end buf i c ≡ ok e → (i ≤ e) × (e ≤ length buf)
  unfolding integer_end
  integer_end-inside i c e room h = ground (arith, h, digits-inside i)

  fraction_end-inside :
      (i e : ℕ) → i ≤ length buf → fraction_end buf i ≡ ok e → (i ≤ e) × (e ≤ length buf)
  unfolding fraction_end
  fraction_end-inside i e room h =
      ground (arith, h, byte_is-lt i 46, some_digits-inside (i + 1) e "bad fraction")

  sign_end-inside : (i : ℕ) → i ≤ length buf → (i ≤ sign_end buf i) × (sign_end buf i ≤ length buf)
  sign_end-inside i room = ground (arith, byte_is-lt i 43, byte_is-lt i 45)

  exponent_end-inside :
      (i e : ℕ) → i ≤ length buf → exponent_end buf i ≡ ok e → (i ≤ e) × (e ≤ length buf)
  unfolding exponent_end
  exponent_end-inside i e room h = ground (
    arith,
    h,
    byte_is-lt i 101,
    byte_is-lt i 69,
    sign_end-inside (i + 1),
    some_digits-inside (sign_end buf (i + 1)) e "bad exponent",
  )

  byte_at-some : (i c : ℕ) → byte_at buf i ≡ ok c → get_elem? buf i ≡ some c
  unfolding byte_at
  byte_at-some i c h = at_elem (get_elem? buf i) h
    where
      at_elem :
          (o : Option ℕ)
          → ◌≡◌ {A = Result ScanError ℕ} (elim o [ none ↦ err (eof i) | some c ↦ ok c ]) (ok c)
          → o ≡ some c
      at_elem none q = cc
      at_elem (some x) q = cc

  integer_end-lt : (i c e : ℕ) → integer_end buf i c ≡ ok e → byte_at buf i ≡ ok c → i < e
  unfolding integer_end
  integer_end-lt i c e h hc =
      ground (arith, h, count_while_pos is_digit buf i c (byte_at-some i c hc))

  pub scan_number-StandsAt : (i : ℕ) (s : Span) → scan_number buf i ≡ ok s → StandsAt i s
  unfolding scan_number
  scan_number-StandsAt i s h =
      let (c, hc, h₁) = >>=-eq-ok (byte_at buf i) _ h in
      let start : ℕ = if c == 45 then i + 1 else i in
      let begins : i ≤ start = ground arith in
      let (f, hf, h₂) = >>=-eq-ok (byte_at buf start) _ h₁ in
      let (x, hx, h₃) = >>=-eq-ok (integer_end buf start f) _ h₂ in
      let (y, hy, h₄) = >>=-eq-ok (fraction_end buf x) _ h₃ in
      let (z, hz, h₅) = >>=-eq-ok (exponent_end buf y) _ h₄ in
      let (_, bx) = integer_end-inside start f x (byte_at-lt start f hf) hx in
      let (ay, by) = fraction_end-inside x y bx hy in
      let (az, bz) = exponent_end-inside y z by hz in
      let starts : i ≡ s.start = ap (λ (t : Span). t.start) (ok-injective h₅) in
      let ends : z ≡ s.end = ap (λ (t : Span). t.end) (ok-injective h₅) in
      (
        omega (arith, starts),
        omega (arith, ends, ay, az, begins, integer_end-lt start f x hx hf),
        omega (arith, ends, bz),
      )

  pub scan_literal-StandsAt :
      (i : ℕ) (text : List ℕ) (s : Span)
      → 0 < length text
      → scan_literal buf i text ≡ ok s
      → StandsAt i s
  unfolding scan_literal
  scan_literal-StandsAt i text s some_text h =
      let (room, e) =
        unless-eq-ok
          (ltb (length buf) (i + length text)
            || not (bytes_eq (take (length text) (drop i buf)) text))
          (syntax "bad literal" i) _ h in
      let starts : i ≡ s.start = ap (λ (t : Span). t.start) (ok-injective e) in
      let ends : i + length text ≡ s.end = ap (λ (t : Span). t.end) (ok-injective e) in
      ground (arith, room, starts, ends, some_text)

  pub container_round-inside :
      (close j d b : ℕ) (r : Round)
      → suc j ≤ length buf
      → container_round buf close j d b ≡ ok r
      → (j < round_end r) × (round_end r ≤ length buf)
  unfolding container_round
  container_round-inside close j d b r room h = ground (arith, h, at_string)
    where
      at_string :
          (scan_string buf j >>= λ s. ok (goes_on s.end d)) ≡ ok r
          → (j < round_end r) × (round_end r ≤ length buf)
      at_string q =
          let (s, hs, q') = >>=-eq-ok (scan_string buf j) _ q in
          let same : s.end ≡ round_end r = ap round_end (ok-injective q') in
          let (_, a, b) = scan_string-StandsAt j s hs in
          (omega (arith, same, a), omega (arith, same, b))
