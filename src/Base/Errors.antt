-- ===== src/Base/Errors.antt =====
-- Fallible code: `Result<A, E>` of the source, with a do block for each chain of `?`.
use mathlib.Core.Path.{◌≡◌, refl}
use mathlib.Core.Logic.{◌⊎◌, inl, inr}
use mathlib.Core.Bool.{Bool, true, false}
use mathlib.Core.Option.{Option, none, some}
use Prim.Native.String.{String}

pub data Result {ℓ} (E : Type 0) (A : Type ℓ) : Type ℓ where
  ok : A → Result E A
  err : E → Result E A

-- What an `anyhow` caller sees: an error with its outermost message, or a panic.
pub data Fault : Type 0 where
  message : String → Fault
  panic : Fault

abbrev pub Fallible {ℓ} : Type ℓ → Type ℓ
Fallible A = Result Fault A

infixl 5 ◌>>=◌ ◌>>◌
abbrev pub ◌>>=◌ {ℓ κ} :
    {E : Type 0} {A : Type ℓ} {B : Type κ} → Result E A → (A → Result E B) → Result E B
ok a >>= f = f a
err e >>= f = err e

abbrev pub ◌>>◌ {ℓ} : {E : Type 0} {B : Type ℓ} → Result E (Unit {0}) → Result E B → Result E B
m >> k = m >>= λ _. k

-- `anyhow::ensure!`.
abbrev pub ensure : Bool → String → Fallible (Unit {0})
ensure true m = ok tt
ensure false m = err (message m)

-- `Option::context` and `Option::ok_or`.
abbrev pub or_fail {ℓ} : {E : Type 0} {A : Type ℓ} → Option A → E → Result E A
or_fail none e = err e
or_fail (some a) e = ok a

-- A property of the value of a call that succeeds.
abbrev pub Holds {ℓ κ} : {E : Type 0} {A : Type ℓ} → (A → Type κ) → Result E A → Type κ
Holds P (ok a) = P a
Holds P (err e) = Unit

pub Holds-ok {ℓ κ} :
    {E : Type 0} {A : Type ℓ} (P : A → Type κ) {m : Result E A} {a : A} → Holds P m → m ≡ ok a → P a
Holds-ok P h e = rw e at h

pub Holds-map {ℓ κ ν} :
    {E : Type 0} {A : Type ℓ} (P : A → Type κ) (Q : A → Type ν) (m : Result E A)
    → ((a : A) → m ≡ ok a → P a → Q a)
    → Holds P m
    → Holds Q m
Holds-map P Q (ok a) f h = f a refl h
Holds-map P Q (err e) f h = tt

pub Holds-bind {ℓ κ ν μ} :
    {E : Type 0} {A : Type ℓ} {B : Type κ} (P : A → Type ν) (Q : B → Type μ) (m : Result E A)
    (f : A → Result E B)
    → ((a : A) → m ≡ ok a → P a → Holds Q (f a))
    → Holds P m
    → Holds Q (m >>= f)
Holds-bind P Q (ok a) f h p = h a refl p
Holds-bind P Q (err e) f h p = tt

pub Holds-then {ℓ κ μ} :
    {E : Type 0} {A : Type ℓ} {B : Type κ} (Q : B → Type μ) (m : Result E A) (f : A → Result E B)
    → ((a : A) → m ≡ ok a → Holds Q (f a))
    → Holds Q (m >>= f)
Holds-then Q (ok a) f h = h a refl
Holds-then Q (err e) f h = tt

pub Holds-const {ℓ κ} :
    {E : Type 0} {A : Type ℓ} {P : Type κ} (m : Result E A) → P → Holds (λ _. P) m
Holds-const (ok a) p = p
Holds-const (err e) p = tt

pub Result-cases {ℓ} :
    {E : Type 0} {A : Type ℓ} (m : Result E A) → ((a : A) × (m ≡ ok a)) ⊎ ((e : E) × (m ≡ err e))
Result-cases (ok a) = inl (a, refl)
Result-cases (err e) = inr (e, refl)
