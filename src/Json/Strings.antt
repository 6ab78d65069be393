-- ===== src/Json/Strings.antt =====
-- The fuel of the decoding of a string in crates/muka-split/src/json.rs.
use muka_ai_trim.Common.{
  ℕ, zero, suc, ◌+◌, ◌-◌, ◌≤◌, ◌≡◌, ◌≢◌, subst, arith, Bool, true, false, not, ◌&&◌, Option, none,
  some, List, [], ◌∷◌, ◌++◌, length, Result, ok, err, >>=-eq-ok, ◌>>=◌, guard, ok-injective, ◌==◌,
  if◌then◌else◌, if-holds, take, drop,
}
use muka_ai_trim.Json.{Span, slice, is_inside}
use muka_ai_trim.Json.Scan.{ScanError, syntax, out_of_fuel}
use muka_ai_trim.Json.Text.{
  Piece, to_digit, hex_digit, read_hex4, is_low, is_high, low_half, decode_unicode, unescape,
  decode_escape, decode_char, decode_loop, decode_string, contains_byte, is_quoted,
}
use muka_ai_trim.Json.Total.{chain-ne-err}

-- A step of the decoding: not out of fuel, and what is left is no longer than `n`.
record IsStep {A : Type 0} (left : A → List ℕ) (n : ℕ) (r : Result ScanError A) : Type 0 where
  total : r ≢ err out_of_fuel
  shrinks : (a : A) → r ≡ ok a → length (left a) ≤ n

abbrev IsPiece : ℕ → Result ScanError Piece → Type 0
IsPiece = IsStep (λ (p : Piece). p.2)

IsStep-err :
    {A : Type 0} (left : A → List ℕ) (n : ℕ) (e : ScanError)
    → e ≢ out_of_fuel
    → IsStep left n (err e)
IsStep-err {A} left n e h = record { total = λ q. h (err-eq q); shrinks = λ a q. cc }
  where
    err-eq : ◌≡◌ {A = Result ScanError A} (err e) (err out_of_fuel) → e ≡ out_of_fuel
    err-eq q = cc

IsStep-ok :
    {A : Type 0} (left : A → List ℕ) (n : ℕ) (a : A) → length (left a) ≤ n → IsStep left n (ok a)
IsStep-ok left n a h = record {
  total = λ q. cc;
  shrinks = λ b q. subst (λ (x : _). length (left x) ≤ n) (ok-injective q) h;
}

module _ (buf : List ℕ) where
  IsStep-bind :
      {A B : Type 0} (m : Result ScanError A) (f : A → Result ScanError B) (left : B → List ℕ)
      (n : ℕ)
      → m ≢ err out_of_fuel
      → ((a : A) → m ≡ ok a → IsStep left n (f a))
      → IsStep left n (m >>= f)
  IsStep-bind m f left n hm hf = record {
    total = chain-ne-err buf m f hm (λ a e. (hf a e).total);
    shrinks = λ b q. let (a, ha, h) = >>=-eq-ok m f q in (hf a ha).shrinks b h;
  }

  hex_digit-total : (start i c : ℕ) → hex_digit start i c ≢ err out_of_fuel
  unfolding hex_digit
  hex_digit-total start i c = at_digit (to_digit c)
    where
      at_digit :
          (o : Option ℕ)
          → elim o [ none ↦ err (syntax "bad hex in \\u" (start + i)) | some d ↦ ok d ]
            ≢ err out_of_fuel
      at_digit none = λ q. cc
      at_digit (some d) = λ q. cc

  read_hex4-IsStep :
      (start i : ℕ) (xs : List ℕ)
      → IsStep (λ (q : ℕ × List ℕ). q.1) (length xs) (read_hex4 start i xs)
  unfolding read_hex4
  read_hex4-IsStep start i [] = IsStep-err _ _ _ (λ q. cc)
  read_hex4-IsStep start i (a ∷ []) = IsStep-err _ _ _ (λ q. cc)
  read_hex4-IsStep start i (a ∷ b ∷ []) = IsStep-err _ _ _ (λ q. cc)
  read_hex4-IsStep start i (a ∷ b ∷ c ∷ []) = IsStep-err _ _ _ (λ q. cc)
  read_hex4-IsStep start i (a ∷ b ∷ c ∷ d ∷ xs) =
      IsStep-bind _ _ _ _ (hex_digit-total start i a) (λ w _.
        IsStep-bind _ _ _ _ (hex_digit-total start (i + 1) b) (λ x _.
          IsStep-bind _ _ _ _ (hex_digit-total start (i + 2) c) (λ y _.
            IsStep-bind _ _ _ _ (hex_digit-total start (i + 3) d)
              (λ z _. IsStep-ok _ _ _ (omega arith)))))

  pub guard-total : (t : Bool) (e : ScanError) → e ≢ out_of_fuel → guard t e ≢ err out_of_fuel
  guard-total true e h = λ q. cc
  guard-total false e h = λ q. h (err-eq q)
    where
      err-eq : ◌≡◌ {A = Result ScanError (Unit {0})} (err e) (err out_of_fuel) → e ≡ out_of_fuel
      err-eq q = cc

  longer : {r : Result ScanError Piece} {m n : ℕ} → m ≤ n → IsPiece m r → IsPiece n r
  longer le h = record { total = h.total; shrinks = λ a e. omega (arith, le, h.shrinks a e) }

  low_half-IsStep : (start i hi : ℕ) (xs : List ℕ) → IsPiece (length xs) (low_half start i hi xs)
  unfolding low_half
  low_half-IsStep start i hi [] = IsStep-err _ _ _ (λ q. cc)
  low_half-IsStep start i hi (a ∷ []) = IsStep-err _ _ _ (λ q. cc)
  low_half-IsStep start i hi (a ∷ b ∷ xs) =
      let four = read_hex4-IsStep start (i + 2) xs in
      if-holds (IsPiece (suc (suc (length xs)))) ((a == 92) && (b == 117))
        (IsStep-bind (read_hex4 start (i + 2) xs) _ _ _ four.total (λ q hq.
          IsStep-bind (guard (is_low q.0) (syntax "bad surrogate pair" (start + (i + 6)))) _ _ _
            (guard-total (is_low q.0) _ (λ e. cc))
            (λ u _. IsStep-ok _ _ _ (omega (arith, four.shrinks q hq)))))
        (IsStep-err _ _ _ (λ q. cc))

  decode_unicode-IsStep :
      (start i : ℕ) (xs : List ℕ) → IsPiece (length xs) (decode_unicode start i xs)
  unfolding decode_unicode
  decode_unicode-IsStep start i xs =
      let four = read_hex4-IsStep start i xs in
      IsStep-bind (read_hex4 start i xs) _ _ _ four.total (λ q hq.
        IsStep-bind (guard (not (is_low q.0)) (syntax "lone low surrogate" (start + (i + 4)))) _ _ _
          (guard-total (not (is_low q.0)) _ (λ e. cc))
          (λ u _.
            if-holds (IsPiece (length xs)) (is_high q.0)
              (longer (four.shrinks q hq) (low_half-IsStep start (i + 4) q.0 q.1))
              (IsStep-ok _ _ _ (four.shrinks q hq))))

  decode_escape-IsStep :
      (start i e : ℕ) (xs : List ℕ) → IsPiece (length xs) (decode_escape start i e xs)
  unfolding decode_escape
  decode_escape-IsStep start i e xs = at_letter (unescape e)
    where
      at_letter :
          (o : Option ℕ)
          → IsPiece (length xs) (elim o [
            | some b ↦ ok (b ∷ [], i, xs)
            | none ↦
                if e == 117
                then decode_unicode start i xs
                else err (syntax "bad escape" (start + i))
          ])
      at_letter (some b) = IsStep-ok _ _ _ (omega arith)
      at_letter none =
          if-holds (IsPiece (length xs)) (e == 117) (decode_unicode-IsStep start i xs)
            (IsStep-err _ _ _ (λ q. cc))

  decode_char-IsStep :
      (start i c : ℕ) (xs : List ℕ) → IsPiece (length xs) (decode_char start i c xs)
  unfolding decode_char
  decode_char-IsStep start i c [] =
      if-holds (IsPiece 0) (c == 92) (IsStep-err _ _ _ (λ q. cc)) (IsStep-ok _ _ _ (omega arith))
  decode_char-IsStep start i c (e ∷ xs) =
      if-holds (IsPiece (suc (length xs))) (c == 92)
        (longer (omega arith) (decode_escape-IsStep start (i + 2) e xs))
        (IsStep-ok _ _ _ (omega arith))

  decode_loop-total :
      (start fuel i : ℕ) (xs out : List ℕ)
      → length xs ≤ fuel
      → decode_loop start fuel i xs out ≢ err out_of_fuel
  unfolding decode_loop
  decode_loop-total start fuel i [] out h = λ q. cc
  decode_loop-total start zero i (c ∷ xs) out h = absurd (omega arith)
  decode_loop-total start (suc fuel) i (c ∷ xs) out h =
      let step = decode_char-IsStep start i c xs in
      chain-ne-err buf (decode_char start i c xs) _ step.total (λ p hp.
        decode_loop-total start fuel p.1 p.2 (out ++ p.0) (omega (arith, step.shrinks p hp)))

  pub decode_string-total : (s : Span) → decode_string buf s ≢ err out_of_fuel
  unfolding decode_string
  decode_string-total s =
      let raw : List ℕ = slice s buf in
      let body : List ℕ = take (length raw - 2) (drop 1 raw) in
      if-holds (λ r. r ≢ err out_of_fuel) (not (is_inside s buf)) (λ q. cc)
        (if-holds (λ r. r ≢ err out_of_fuel) (not (is_quoted raw)) (λ q. cc)
          (if-holds (λ r. r ≢ err out_of_fuel) (not (contains_byte 92 body)) (λ q. cc)
            (decode_loop-total s.start (length body) 0 body [] (omega arith))))
