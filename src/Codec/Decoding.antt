-- ===== src/Codec/Decoding.antt =====
-- Decoders: functions from a reader to a value and the reader behind it, with `?` as their bind,
-- and the rules by which a chain of decoders reads a chain of byte strings.
use muka_ai_trim.Common.Outcome
use muka_ai_trim.Common.{
  arith, ℕ, ◌+◌, ◌≡◌, ap, Bool, true, List, [], ◌∷◌, ◌++◌, Result, ok, err, map_err, if◌then◌else◌,
}
use muka_ai_trim.Varint.{CodecError, Reader, take_bytes}
use muka_ai_trim.Varint.Reading.{Reads, Reads-bind, Reads-take}
use Prim.Native.String.{String}

pub data Error : Type 0 where
  codec : CodecError → Error
  too_large : ℕ → Error
  unknown_tag : ℕ → Error
  unknown_kind : ℕ → Error
  version : ℕ → ℕ → Error
  io : String → Error

abbrev pub Decode : Type 0 → Type 0
Decode A = Reader → Result Error (A × Reader)

infixl 5 ◌>>=◌ ◌>>◌
abbrev pub ◌>>=◌ : {A B : Type 0} → Decode A → (A → Decode B) → Decode B
◌>>=◌ p f r = Outcome.◌>>=◌ (p r) (λ q. f q.0 q.1)

abbrev pub ◌>>◌ : {B : Type 0} → Decode (Unit {0}) → Decode B → Decode B
p >> q = p >>= λ _. q

abbrev pub pure : {A : Type 0} → A → Decode A
pure a r = ok (a, r)

abbrev pub lift : {A : Type 0} → (Reader → Result CodecError (A × Reader)) → Decode A
lift p r = map_err codec (p r)

abbrev pub check : Bool → Error → Decode (Unit {0})
check t e r = if t then ok (tt, r) else err e

-- `take(1)?[0]`: the slice has one element when `take` succeeds.
abbrev pub first : List ℕ → ℕ
first [] = 0
first (b ∷ bs) = b

abbrev pub take_one : Decode ℕ
take_one = lift (take_bytes 1) >>= λ s. pure (first s)

abbrev pub run : {A : Type 0} → Decode A → Reader → Result Error A
run p r = Outcome.◌>>=◌ (p r) (λ q. ok q.0)

pub Reads-pure : {A : Type 0} (a : A) → Reads (pure a) [] a
Reads-pure a = record {
  run = λ r ys e.
      let z : r.pos ≡ r.pos + 0 = omega arith in λ j. ok (a, record { buf = r.buf; pos = z j });
}

pub Reads-lift :
    {A : Type 0} {p : Reader → Result CodecError (A × Reader)} {xs : List ℕ} {a : A}
    → Reads p xs a
    → Reads (lift p) xs a
Reads-lift h = record { run = λ r ys e. ap (map_err codec) (h.run r ys e) }

pub Reads-check : (t : Bool) (e : Error) → t ≡ true → Reads (check t e) [] tt
Reads-check t e h = rw h (Reads-pure tt)

pub Reads-then :
    {A B : Type 0} {p : Decode A} (f : A → Decode B) {xs ys : List ℕ} {a : A} {b : B}
    → Reads p xs a
    → Reads (f a) ys b
    → Reads (p >>= f) (xs ++ ys) b
Reads-then f hp hf = Reads-bind f hp hf

pub Reads-check-then :
    {B : Type 0} (t : Bool) (e : Error) (q : Decode B) {ys : List ℕ} {b : B}
    → t ≡ true
    → Reads q ys b
    → Reads (check t e >> q) ys b
Reads-check-then t e q h hq = Reads-bind (λ _. q) (Reads-check t e h) hq

pub Reads-take_one : (b : ℕ) → Reads take_one (b ∷ []) b
Reads-take_one b =
    Reads-bind (λ s. pure (first s)) (Reads-lift (Reads-take (b ∷ []))) (Reads-pure b)
