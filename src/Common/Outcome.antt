-- ===== src/Common/Outcome.antt =====
-- Rust's `Result<A, E>` with its `?` as the bind of `do` blocks.
use mathlib.Core.Path.{◌≡◌, refl}
use mathlib.Core.Logic.{◌⊎◌, ◌≢◌, inl, inr}
use mathlib.Core.Bool.{Bool, true, false}
use muka_ai_trim.Common.Tests.{if◌then◌else◌}

pub data Result {ℓ κ} (E : Type ℓ) (A : Type κ) : Type (ℓ ⊔ κ) where
  ok : A → Result E A
  err : E → Result E A

infixl 5 ◌>>=◌
abbrev pub ◌>>=◌ {ℓ κ ι} :
    {E : Type ℓ} {A : Type κ} {B : Type ι} → Result E A → (A → Result E B) → Result E B
ok a >>= f = f a
err e >>= f = err e

infixl 5 ◌>>◌
abbrev pub ◌>>◌ {ℓ κ} : {E : Type ℓ} {B : Type κ} → Result E (Unit {0}) → Result E B → Result E B
m >> k = m >>= λ _. k

abbrev pub guard {ℓ} : {E : Type ℓ} → Bool → E → Result E (Unit {0})
guard true e = ok tt
guard false e = err e

-- `map_err`, and the conversion that `?` applies to an error.
abbrev pub map_err {ℓ κ ι} :
    {E : Type ℓ} {F : Type κ} {A : Type ι} → (E → F) → Result E A → Result F A
map_err f (ok a) = ok a
map_err f (err e) = err (f e)

-- Inversion of a successful bind.
pub >>=-eq-ok {ℓ κ ι} :
    {E : Type ℓ} {A : Type κ} {B : Type ι} (now : Result E A) (later : A → Result E B) {out : B}
    → (now >>= later) ≡ ok out
    → (mid : A) × (now ≡ ok mid) × (later mid ≡ ok out)
>>=-eq-ok (err e) later same = cc
>>=-eq-ok (ok mid) later same = (mid, refl, same)

-- Inversion of a guard, and of an early return with an error.
pub guard-eq-ok {ℓ κ} :
    {E : Type ℓ} {B : Type κ} (t : Bool) (e : E) (m : Result E B) {b : B}
    → (guard t e >> m) ≡ ok b
    → (t ≡ true) × (m ≡ ok b)
guard-eq-ok true e m h = (refl, h)
guard-eq-ok false e m h = cc

pub unless-eq-ok {ℓ κ} :
    {E : Type ℓ} {B : Type κ} (t : Bool) (e : E) (m : Result E B) {b : B}
    → (if t then err e else m) ≡ ok b
    → (t ≡ false) × (m ≡ ok b)
unless-eq-ok true e m h = cc
unless-eq-ok false e m h = (refl, h)

pub Result-cases {ℓ κ} :
    {E : Type ℓ} {A : Type κ} (r : Result E A) → ((a : A) × (r ≡ ok a)) ⊎ ((e : E) × (r ≡ err e))
Result-cases (ok a) = inl (a, refl)
Result-cases (err e) = inr (e, refl)

-- An error that no part of a chain gives, the chain does not give.
pub unless-ne-err {ℓ κ} :
    {E : Type ℓ} {B : Type κ} (t : Bool) (e : E) (m : Result E B) {x : E}
    → e ≢ x
    → m ≢ err x
    → (if t then err e else m) ≢ err x
unless-ne-err {B} true e m {x} he hm = λ q. he (err-injective q)
  where
    err-injective : ◌≡◌ {A = Result _ B} (err e) (err x) → e ≡ x
    err-injective q = cc
unless-ne-err false e m he hm = hm

pub >>=-ne-err {ℓ κ ι} :
    {E : Type ℓ} {A : Type κ} {B : Type ι} (m : Result E A) (f : A → Result E B) {x : E}
    → m ≢ err x
    → ((a : A) → f a ≢ err x)
    → (m >>= f) ≢ err x
>>=-ne-err (ok a) f hm hf = hf a
>>=-ne-err {A} (err e) f {x} hm hf = λ q. hm (again q)
  where
    again : ◌≡◌ (err e >>= f) (err x) → ◌≡◌ {A = Result _ A} (err e) (err x)
    again q = let same : e ≡ x = cc in λ j. err (same j)

pub when-eq-ok {ℓ κ} :
    {E : Type ℓ} {B : Type κ} (t : Bool) (e : E) (m : Result E B) {b : B}
    → (if t then m else err e) ≡ ok b
    → (t ≡ true) × (m ≡ ok b)
when-eq-ok true e m h = (refl, h)
when-eq-ok false e m h = cc

pub ok-injective {ℓ κ} :
    {E : Type ℓ} {A : Type κ} {a b : A} → ◌≡◌ {A = Result E A} (ok a) (ok b) → a ≡ b
ok-injective h = cc
