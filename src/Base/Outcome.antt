-- ===== src/Base/Outcome.antt =====
-- Rust's `Result` with the combinators that the sources call. A method on `&mut self` returns its
-- result and the state that it leaves, also beside an error.
use mathlib.Core.Bool.{Bool, true, false}
use mathlib.Core.Logic.{◌⊎◌, inl, inr}
use mathlib.Core.Option.{Option, none, some}
use mathlib.Core.Path.{◌≡◌, refl}

pub data Result {ℓ} (E : Type 0) (A : Type ℓ) : Type ℓ where
  ok : A → Result E A
  err : E → Result E A

module _ {ℓ} {E : Type 0} {A : Type ℓ} where
  -- Option::ok_or
  abbrev pub ok_or : Option A → E → Result E A
  ok_or none e = err e
  ok_or (some a) e = ok a

  -- Result::ok
  abbrev pub to_option : Result E A → Option A
  to_option (ok a) = some a
  to_option (err e) = none

  pub Result-cases : (r : Result E A) → ((a : A) × (r ≡ ok a)) ⊎ ((e : E) × (r ≡ err e))
  Result-cases (ok a) = inl (a, refl)
  Result-cases (err e) = inr (e, refl)

  pub ok-injective : {a b : A} → ◌≡◌ {A = Result E A} (ok a) (ok b) → a ≡ b
  ok-injective h = cc

-- Result::map_err
abbrev pub map_err {ℓ} : {E F : Type 0} {A : Type ℓ} → (E → F) → Result E A → Result F A
map_err f (ok a) = ok a
map_err f (err e) = err (f e)

-- The `?` operator: the rest of the method runs on the value, and an error leaves at once.
infixl 5 ◌>>=◌ ◌>>◌
abbrev pub ◌>>=◌ {ℓ κ} :
    {E : Type 0} {A : Type ℓ} {B : Type κ} → Result E A → (A → Result E B) → Result E B
◌>>=◌ (err e) rest = err e
◌>>=◌ (ok a) rest = rest a

abbrev pub ◌>>◌ {ℓ} : {E : Type 0} {B : Type ℓ} → Result E (Unit {0}) → Result E B → Result E B
check >> rest = check >>= λ done. rest

-- `if !test { return Err(e) }`
abbrev pub ensure : {E : Type 0} → Bool → E → Result E (Unit {0})
ensure false e = err e
ensure true e = ok tt

-- Option::filter
abbrev pub keep_if {ℓ} : {A : Type ℓ} → (A → Bool) → Option A → Option A
keep_if p none = none
keep_if p (some a) = elim (p a) [ true ↦ some a | false ↦ none ]

-- What `?` says of a method that succeeds.
pub ok_of_bind {ℓ κ} :
    {E : Type 0} {A : Type ℓ} {B : Type κ} (r : Result E A) (rest : A → Result E B) {b : B}
    → (r >>= rest) ≡ ok b
    → (a : A) × (r ≡ ok a) × (rest a ≡ ok b)
ok_of_bind (err e) rest h = absurd (cc)
ok_of_bind (ok a) rest h = (a, refl, h)

pub ok_of_check {ℓ} :
    {E : Type 0} {B : Type ℓ} (check : Result E (Unit {0})) (rest : Result E B) {b : B}
    → (check >> rest) ≡ ok b
    → (check ≡ ok tt) × (rest ≡ ok b)
ok_of_check (err e) rest h = absurd (cc)
ok_of_check (ok tt) rest h = (refl, h)

pub ok_of_ensure {ℓ} :
    {E : Type 0} {B : Type ℓ} (test : Bool) (e : E) (rest : Result E B) {b : B}
    → (ensure test e >> rest) ≡ ok b
    → (test ≡ true) × (rest ≡ ok b)
ok_of_ensure false e rest h = absurd (cc)
ok_of_ensure true e rest h = (refl, h)
