-- ===== src/Prelude/Chains.antt =====
-- Chains of `?` on results, and how a chain that returns has come about.
use mathlib.Core.Path.{◌≡◌, refl}
use mathlib.Core.Option.{Option, none, some}
use mathlib.Core.Bool.{Bool, true, false}
use gabbro.Prelude.Outcomes.{Result, ok, err, panic}

infixl 10 ◌>>=◌ ◌>>◌
abbrev pub ◌>>=◌ {ℓ κ μ} :
    {E : Type ℓ} {A : Type κ} {B : Type μ} → Result E A → (A → Result E B) → Result E B
ok a >>= f = f a
err e >>= f = err e
panic >>= f = panic

abbrev pub ◌>>◌ {ℓ κ} : {E : Type ℓ} {B : Type κ} → Result E (Unit {0}) → Result E B → Result E B
m >> k = m >>= λ _. k

-- `ok_or(e)?`
abbrev pub ok_or {ℓ κ} : {E : Type ℓ} {A : Type κ} → E → Option A → Result E A
ok_or e none = err e
ok_or e (some a) = ok a

-- `if !c { return Err(e) }`
abbrev pub ensure {ℓ} : {E : Type ℓ} → E → Bool → Result E (Unit {0})
ensure e true = ok tt
ensure e false = err e

pub >>=-eq-ok {ℓ κ μ} :
    {E : Type ℓ} {A : Type κ} {B : Type μ} (m : Result E A) (next : A → Result E B) {done : B}
    → (m >>= next) ≡ ok done
    → (a : A) × (m ≡ ok a) × (next a ≡ ok done)
>>=-eq-ok panic next h = cc
>>=-eq-ok (err e) next h = cc
>>=-eq-ok (ok a) next h = (a, refl, h)

pub ok_or-eq-ok {ℓ κ} :
    {E : Type ℓ} {A : Type κ} (e : E) (o : Option A) {a : A} → ok_or e o ≡ ok a → o ≡ some a
ok_or-eq-ok e none h = cc
ok_or-eq-ok e (some a) h = cc

pub ensure-eq-ok {ℓ} : {E : Type ℓ} (e : E) (b : Bool) {u : Unit {0}} → ensure e b ≡ ok u → b ≡ true
ensure-eq-ok e true h = refl
ensure-eq-ok e false h = cc
