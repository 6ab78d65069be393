-- ===== src/Varint/Reading.antt =====
-- What a reader has still to read, and a composable statement that a parser reads a byte string.
use muka_ai_trim.Common.{
  ℕ, ◌+◌, ◌≡◌, sym, ap, ◌∙◌, arith, List, [], ◌++◌, append_assoc, length, drop, ltb, ge→ltb, false,
  take-append, Result, ok, ◌>>=◌, length-append, drop-append, drop-drop, length-drop,
}
use muka_ai_trim.Varint.{Reader, advance, remaining, take_bytes}

abbrev pub unread : Reader → List ℕ
unread r = drop r.pos r.buf

pub unread-advance :
    (r : Reader) (xs ys : List ℕ) → unread r ≡ xs ++ ys → unread (advance r (length xs)) ≡ ys
unread-advance r xs ys h =
    sym (drop-drop r.pos (length xs) r.buf) ∙ ap (drop (length xs)) h ∙ drop-append xs ys

pub remaining-unread : (r : Reader) → remaining r ≡ length (unread r)
remaining-unread r = sym (length-drop r.pos r.buf)

-- A parser that meets `xs`, whatever follows, takes it and returns `a`.
pub record Reads {ℓ} {E A : Type ℓ} (p : Reader → Result E (A × Reader)) (xs : List ℕ) (a : A)
    : Type ℓ where
  pub run : (r : Reader) (ys : List ℕ) → unread r ≡ xs ++ ys → p r ≡ ok (a, advance r (length xs))

pub advance-advance : (r : Reader) (m n k : ℕ) → m + n ≡ k → advance (advance r m) n ≡ advance r k
advance-advance r m n k h =
    let e : r.pos + m + n ≡ r.pos + k = omega arith in λ j. record { buf = r.buf; pos = e j }

-- Parsers in sequence read byte strings in sequence.
pub Reads-bind {ℓ} :
    {E A B : Type ℓ} {p : Reader → Result E (A × Reader)} (f : A → Reader → Result E (B × Reader))
    {xs ys : List ℕ} {a : A} {b : B}
    → Reads p xs a
    → Reads (f a) ys b
    → Reads (λ r. p r >>= λ (q : A × Reader). f q.0 q.1) (xs ++ ys) b
Reads-bind f {xs} {ys} {b} hp hf = record {
  run = λ r zs e.
      let e' : unread r ≡ xs ++ (ys ++ zs) = rw append_assoc at e in
      rw
        (
          hp.run r (ys ++ zs) e',
          hf.run (advance r (length xs)) zs (unread-advance r xs (ys ++ zs) e'),
        )
        (ap (λ (t : Reader). ok (b, t))
          (advance-advance r (length xs) (length ys) (length (xs ++ ys))
            (sym (length-append xs ys))));
}

-- A parser that takes nothing.
pub Reads-pure {ℓ} : {E A : Type ℓ} (a : A) → Reads {E = E} (λ r. ok (a, r)) [] a
Reads-pure a = record {
  run = λ r ys e.
      let z : r.pos ≡ r.pos + 0 = omega arith in λ j. ok (a, record { buf = r.buf; pos = z j });
}

pub Reads-take : (xs : List ℕ) → Reads (take_bytes (length xs)) xs xs
unfolding take_bytes
Reads-take xs = record {
  run = λ r ys e.
      let enough : ltb (remaining r) (length xs) ≡ false =
        ge→ltb _ _ (omega (arith, remaining-unread r, ap length e, length-append xs ys)) in
      rw (enough, e, take-append);
}
