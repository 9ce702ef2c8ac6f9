-- ===== src/Base/Slices.antt =====
-- Prefixes and sub-slices of lists, and equality of byte strings.
use Prim.Native.Nat.{ℕ, zero, suc, ◌+◌, ◌≤◌, ◌<◌}
use mathlib.Core.Path.{◌≡◌, refl, ap}
use mathlib.Core.Bool.{Bool, true, false, ◌&&◌}
use mathlib.Core.List.{List, [], ◌∷◌, ◌++◌}
use mathlib.Core.Option.{some}
use native.Mathlib.Nat.{zero-add}
use native.Mathlib.Omega.{arith}
use slopos.Base.Tests.{◌==◌, leb}
use slopos.Base.Lists.{length, get_elem?, take, drop, set, All, any}

abbrev pub bytes_eq : List ℕ → List ℕ → Bool
bytes_eq [] [] = true
bytes_eq [] (y ∷ ys) = false
bytes_eq (x ∷ xs) [] = false
bytes_eq (x ∷ xs) (y ∷ ys) = (x == y) && bytes_eq xs ys

abbrev pub contains : List ℕ → ℕ → Bool
contains xs b = any (λ x. x == b) xs

pub bytes_eq→eq : (xs ys : List ℕ) → bytes_eq xs ys ≡ true → xs ≡ ys
bytes_eq→eq [] [] h = refl
bytes_eq→eq [] (y ∷ ys) h = cc
bytes_eq→eq (x ∷ xs) [] h = cc
bytes_eq→eq (x ∷ xs) (y ∷ ys) h = ground (arith, bytes_eq→eq xs ys)

pub bytes_eq_refl : (xs : List ℕ) → bytes_eq xs xs ≡ true
bytes_eq_refl [] = refl
bytes_eq_refl (x ∷ xs) = ground (arith, bytes_eq_refl xs)

module _ {ℓ} {A : Type ℓ} where
  -- A write at the end of a prefix extends the prefix.
  pub take-set :
      (xs : List A) (i : ℕ) (v : A)
      → i < length xs
      → take (suc i) (set xs i v) ≡ take i xs ++ v ∷ []
  take-set [] i v h = elim h [ ]
  take-set (x ∷ xs) zero v h = refl
  take-set (x ∷ xs) (suc i) v h = ap (◌∷◌ x) (take-set xs i v (omega arith))

  pub All-take {κ} :
      (P : A → Type κ) (xs : List A) (m n : ℕ) → m ≤ n → All P (take n xs) → All P (take m xs)
  All-take P xs zero n h a = tt
  All-take P [] (suc m) n h a = tt
  All-take P (x ∷ xs) (suc m) zero h a = absurd (omega arith)
  All-take P (x ∷ xs) (suc m) (suc n) h a = (a.0, All-take P xs m n (omega arith) a.1)

  pub All-take-All {κ} : (P : A → Type κ) (n : ℕ) (xs : List A) → All P xs → All P (take n xs)
  All-take-All P zero xs a = tt
  All-take-All P (suc n) [] a = tt
  All-take-All P (suc n) (x ∷ xs) a = (a.0, All-take-All P n xs a.1)

  pub All-append {κ} : (P : A → Type κ) (xs ys : List A) → All P xs → All P ys → All P (xs ++ ys)
  All-append P [] ys a b = b
  All-append P (x ∷ xs) ys a b = (a.0, All-append P xs ys a.1 b)

  pub take-length : (xs : List A) → take (length xs) xs ≡ xs
  take-length [] = refl
  take-length (x ∷ xs) = ap (◌∷◌ x) (take-length xs)

  pub take-append : (xs ys : List A) → take (length xs) (xs ++ ys) ≡ xs
  take-append [] ys = refl
  take-append (x ∷ xs) ys = ap (◌∷◌ x) (take-append xs ys)

  pub drop-append : (xs ys : List A) → drop (length xs) (xs ++ ys) ≡ ys
  drop-append [] ys = refl
  drop-append (x ∷ xs) ys = drop-append xs ys

  pub take-take : (m n : ℕ) (xs : List A) → m ≤ n → take m (take n xs) ≡ take m xs
  take-take zero n xs h = refl
  take-take (suc m) zero xs h = absurd (omega arith)
  take-take (suc m) (suc n) [] h = refl
  take-take (suc m) (suc n) (x ∷ xs) h = ap (◌∷◌ x) (take-take m n xs (omega arith))

  pub length-take_le : (n : ℕ) (xs : List A) → n ≤ length xs → length (take n xs) ≡ n
  length-take_le zero xs h = refl
  length-take_le (suc n) [] h = absurd (omega arith)
  length-take_le (suc n) (x ∷ xs) h = ap suc (length-take_le n xs (omega arith))

  pub drop-nil : (n : ℕ) → drop {A = A} n [] ≡ []
  drop-nil zero = refl
  drop-nil (suc n) = refl

  pub drop-drop : (m n : ℕ) (xs : List A) → drop n (drop m xs) ≡ drop (m + n) xs
  drop-drop zero n xs = rw zero-add
  drop-drop (suc m) n [] = rw (drop-nil n, drop-nil (suc m + n))
  drop-drop (suc m) n (x ∷ xs) =
      let e : suc m + n ≡ suc (m + n) = omega arith in rw e (drop-drop m n xs)

  pub drop_all : (n : ℕ) (xs : List A) → length xs ≤ n → drop n xs ≡ []
  drop_all n [] h = drop-nil n
  drop_all zero (x ∷ xs) h = absurd (omega arith)
  drop_all (suc n) (x ∷ xs) h = drop_all n xs (omega arith)

  -- A slice that ends within a prefix is a slice of the prefix.
  pub slice-take :
      (n start len : ℕ) (xs : List A)
      → start + len ≤ n
      → take len (drop start (take n xs)) ≡ take len (drop start xs)
  slice-take n zero len xs h = take-take len n xs (omega arith)
  slice-take zero (suc start) len xs h = absurd (omega arith)
  slice-take (suc n) (suc start) len [] h = refl
  slice-take (suc n) (suc start) len (x ∷ xs) h = slice-take n start len xs (omega arith)

  -- The first element of what is left behind an index.
  pub drop_cons :
      (n i : ℕ) (xs : List A)
      → i < n
      → n ≤ length xs
      → (x : A) × (get_elem? xs i ≡ some x) × (drop i (take n xs) ≡ x ∷ drop (suc i) (take n xs))
  drop_cons zero i xs h l = elim h [ ]
  drop_cons (suc n) i [] h l = absurd (omega arith)
  drop_cons (suc n) zero (x ∷ xs) h l = (x, refl, refl)
  drop_cons (suc n) (suc i) (x ∷ xs) h l = drop_cons n i xs (omega arith) (omega arith)

pub bytes_eq-append :
    (xs c r : List ℕ)
    → bytes_eq xs (c ++ r) ≡ (
        leb (length c) (length xs)
        && (bytes_eq (take (length c) xs) c && bytes_eq (drop (length c) xs) r))
bytes_eq-append xs [] r = ground arith
bytes_eq-append [] (y ∷ c) r = ground arith
bytes_eq-append (x ∷ xs) (y ∷ c) r = ground (arith, bytes_eq-append xs c r)

pub bytes_eq-drop_nil :
    (i : ℕ) (xs : List ℕ) → i ≤ length xs → bytes_eq (drop i xs) [] ≡ (i == length xs)
bytes_eq-drop_nil zero [] h = refl
bytes_eq-drop_nil zero (x ∷ xs) h = ground arith
bytes_eq-drop_nil (suc i) [] h = absurd (omega arith)
bytes_eq-drop_nil (suc i) (x ∷ xs) h = ground (arith, bytes_eq-drop_nil i xs)
