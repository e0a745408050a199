-- ===== src/Base/Fallible.antt =====
-- Chains of results that may fail, with no state.
use mathlib.Core.Bool.{Bool, true, false, not}
use mathlib.Core.Option.{Option, none, some}
use mathlib.Core.Path.{◌≡◌, refl}
use pic_x.Base.Effects.{Result, ok, err}

infixl 5 ◌>>=◌ ◌>>◌
abbrev pub ◌>>=◌ {ℓ κ ι} :
    {E : Type ℓ} {A : Type κ} {B : Type ι} → Result E A → (A → Result E B) → Result E B
ok a >>= f = f a
err e >>= f = err e

abbrev pub ◌>>◌ {ℓ ι} : {E : Type ℓ} {B : Type ι} → Result E (Unit {0}) → Result E B → Result E B
m >> k = m >>= λ _. k

-- `if !test { return Err(e) }`
abbrev pub ensure {ℓ} : {E : Type ℓ} → Bool → E → Result E (Unit {0})
ensure true e = ok tt
ensure false e = err e

-- `ok_or_else`
abbrev pub ok_or {ℓ κ} : {E : Type ℓ} {A : Type κ} → Option A → E → Result E A
ok_or none e = err e
ok_or (some a) e = ok a

-- A chain that ended well went through a value of its first step.
pub through {ℓ} :
    {E A B : Type ℓ} {b : B} (first : Result E A) (rest : A → Result E B)
    → (first >>= rest) ≡ ok b
    → (a : A) × (first ≡ ok a) × (rest a ≡ ok b)
through (err e) rest h = cc
through (ok a) rest h = (a, refl, h)

pub ok_or-ok {ℓ} : {E A : Type ℓ} {a : A} (o : Option A) (e : E) → ok_or o e ≡ ok a → o ≡ some a
ok_or-ok none e h = cc
ok_or-ok (some a) e h = cc

pub ensure-ok {ℓ} : {E : Type ℓ} (b : Bool) (e : E) → ensure b e ≡ ok tt → b ≡ true
ensure-ok true e h = refl
ensure-ok false e h = cc

pub same {ℓ} : {E A : Type ℓ} {a b : A} (r : Result E A) → r ≡ ok a → r ≡ ok b → a ≡ b
same (ok c) h k = cc
same (err e) h k = cc

-- The same of a step that gives nothing, of a test, and of a test that has to fail.
pub after {ℓ} :
    {E : Type 0} {B : Type ℓ} {b : B} (first : Result E (Unit {0})) (rest : Unit {0} → Result E B)
    → (first >>= rest) ≡ ok b
    → (first ≡ ok tt) × (rest tt ≡ ok b)
after (err e) rest h = cc
after (ok tt) rest h = (refl, h)

pub passed {ℓ} :
    {E : Type 0} {B : Type ℓ} {b : B} (test : Bool) (e : E) (rest : Unit {0} → Result E B)
    → (ensure test e >>= rest) ≡ ok b
    → (test ≡ true) × (rest tt ≡ ok b)
passed true e rest h = (refl, h)
passed false e rest h = cc

pub refuted : (test : Bool) → not test ≡ true → test ≡ false
refuted false h = refl
refuted true h = cc
