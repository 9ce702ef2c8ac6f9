-- ===== src/Base/Search.antt =====
-- Searches of a slot array: `iter().position`, the first index at which a test holds.
use Prim.Native.Nat.{ℕ, zero, suc, ◌<◌}
use mathlib.Core.Path.{◌≡◌, refl}
use mathlib.Core.Logic.{inl, inr}
use mathlib.Core.Bool.{Bool, true, false}
use mathlib.Core.List.{List, [], ◌∷◌}
use mathlib.Core.Option
use mathlib.Core.Option.{Option, none, some}
use native.Mathlib.Omega.{arith}
use slopos.Base.Tests.{if◌then◌else◌, Option-cases}
use slopos.Base.Lists.{get_elem?}

module _ {ℓ} {A : Type ℓ} where
  unfoldable pub position : (A → Bool) → List A → Option ℕ
  position p [] = none
  position p (x ∷ xs) = if p x then some 0 else Option.map suc (position p xs)

  -- What `position` promises of its result: the test holds there and fails before.
  pub record FirstAt (p : A → Bool) (xs : List A) (i : ℕ) : Type ℓ where
    pub value : A
    pub found : get_elem? xs i ≡ some value
    pub holds : p value ≡ true
    pub before : (j : ℕ) (b : A) → j < i → get_elem? xs j ≡ some b → p b ≡ false

  FirstAt-suc :
      (p : A → Bool) (x : A) (xs : List A) (i : ℕ)
      → p x ≡ false
      → FirstAt p xs i
      → FirstAt p (x ∷ xs) (suc i)
  FirstAt-suc p x xs i miss f = record {
    value = f.value;
    found = f.found;
    holds = f.holds;
    before = earlier;
  }
    where
      earlier : (j : ℕ) (b : A) → j < suc i → get_elem? (x ∷ xs) j ≡ some b → p b ≡ false
      earlier zero b h e = ground arith
      earlier (suc j) b h e = f.before j b (omega arith) e

  pub position-FirstAt :
      (p : A → Bool) (xs : List A) (i : ℕ) → position p xs ≡ some i → FirstAt p xs i
  unfolding position
  position-FirstAt p [] i h = absurd (cc)
  position-FirstAt p (x ∷ xs) zero h = record {
    value = x;
    found = refl;
    holds = ground arith;
    before = λ j b lt e. absurd (omega arith);
  }
  position-FirstAt p (x ∷ xs) (suc i) h =
      FirstAt-suc p x xs i (ground arith) (position-FirstAt p xs i (ground arith))

  pub position-none :
      (p : A → Bool) (xs : List A) (i : ℕ) (b : A)
      → position p xs ≡ none
      → get_elem? xs i ≡ some b
      → p b ≡ false
  unfolding position
  position-none p [] i b h e = absurd (cc)
  position-none p (x ∷ xs) zero b h e = ground arith
  position-none p (x ∷ xs) (suc i) b h e = position-none p xs i b (ground arith) e

  -- A search succeeds where some entry passes the test.
  pub position-total :
      (p : A → Bool) (xs : List A) (i : ℕ) (b : A)
      → get_elem? xs i ≡ some b
      → p b ≡ true
      → (j : ℕ) × (position p xs ≡ some j)
  position-total p xs i b e h = elim (Option-cases (position p xs)) [
    | inl n ↦ absurd (ground (arith, position-none p xs i b n e))
    | inr (j, f) ↦ (j, f)
  ]

module _ {ℓ} {A : Type ℓ} where
  -- `iter().find` and `iter_mut().find`: the first entry that passes the test, with its place.
  unfoldable pub find : (A → Bool) → List A → Option (ℕ × A)
  find p [] = none
  find p (x ∷ xs) =
      if p x then some (0, x) else Option.map (λ (r : ℕ × A). (suc r.0, r.1)) (find p xs)

  pub find-get_elem? :
      (p : A → Bool) (xs : List A) (i : ℕ) (a : A)
      → find p xs ≡ some (i, a)
      → (get_elem? xs i ≡ some a) × (p a ≡ true)
  unfolding find
  find-get_elem? p [] i a h = absurd (cc)
  find-get_elem? p (x ∷ xs) zero a h = ground arith
  find-get_elem? p (x ∷ xs) (suc i) a h = ground (arith, find-get_elem? p xs i a)

  pub find-none :
      (p : A → Bool) (xs : List A) (i : ℕ) (a : A)
      → find p xs ≡ none
      → get_elem? xs i ≡ some a
      → p a ≡ false
  unfolding find
  find-none p [] i a h e = absurd (cc)
  find-none p (x ∷ xs) zero a h e = ground arith
  find-none p (x ∷ xs) (suc i) a h e = find-none p xs i a (ground arith) e

  -- Where one entry alone passes the test, it is found.
  pub find-only :
      (p : A → Bool) (xs : List A) (i : ℕ) (a : A)
      → get_elem? xs i ≡ some a
      → p a ≡ true
      → ((j : ℕ) (b : A) → get_elem? xs j ≡ some b → p b ≡ true → j ≡ i)
      → find p xs ≡ some (i, a)
  unfolding find
  find-only p [] i a h t only = absurd (cc)
  find-only p (x ∷ xs) zero a h t only = ground arith
  find-only p (x ∷ xs) (suc i) a h t only =
      ground (
        arith,
        only 0 x refl,
        find-only p xs i a h t (λ j b e u. omega (arith, only (suc j) b e u)),
      )
