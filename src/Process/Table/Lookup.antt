-- ===== src/Process/Table/Lookup.antt =====
-- The slots as a map from process numbers, where no number is taken twice.
use slopos.Base.{
  ℕ, ◌≡◌, refl, true, false, Option, some, none, List, get_elem?, set, find, find-get_elem?,
  find-only, arith, Option-cases, Bool-cases, inl, inr, if◌then◌else◌, ◌==◌, get_elem?-set,
  get_elem?_bound,
}
use slopos.Process.Table.{ProcessSlot, is_process, is_live, second}

-- No two live slots have the same process number.
pub record Unique (xs : List ProcessSlot) : Type 0 where
  pub places :
      (i j : ℕ) (a b : ProcessSlot)
      → get_elem? xs i ≡ some a
      → get_elem? xs j ≡ some b
      → is_live a ≡ true
      → is_live b ≡ true
      → a.pid ≡ b.pid
      → i ≡ j

abbrev lookup : ℕ → List ProcessSlot → Option ProcessSlot
lookup q xs = second (find (is_process q) xs)

lookup_place :
    (q : ℕ) (xs : List ProcessSlot) (s : ProcessSlot)
    → lookup q xs ≡ some s
    → (i : ℕ) × (get_elem? xs i ≡ some s) × (is_process q s ≡ true)
lookup_place q xs s h = elim (Option-cases (find (is_process q) xs)) [
  | inl e ↦ absurd (ground arith)
  | inr ((i, a), e) ↦
      let (at, holds) = find-get_elem? (is_process q) xs i a e in (i, ground arith, ground arith)
]

pub lookup_at :
    (q : ℕ) (xs : List ProcessSlot) (i : ℕ) (s : ProcessSlot)
    → Unique xs
    → get_elem? xs i ≡ some s
    → is_process q s ≡ true
    → lookup q xs ≡ some s
lookup_at q xs i s u at p = rw (
    find-only (is_process q) xs i s at p
      (λ j b e t. u.places j i b s e at (ground arith) (ground arith) (ground arith)))

pub lookup_nowhere :
    (q : ℕ) (xs : List ProcessSlot)
    → ((i : ℕ) (s : ProcessSlot) → get_elem? xs i ≡ some s → is_process q s ≡ false)
    → lookup q xs ≡ none
lookup_nowhere q xs absent = elim (Option-cases (lookup q xs)) [
  | inl e ↦ e
  | inr (s, e) ↦ let (i, at, p) = lookup_place q xs s e in absurd (ground (arith, absent i s at))
]

module _ (xs : List ProcessSlot) (i : ℕ) (old new : ProcessSlot) (u : Unique xs)
    (at : get_elem? xs i ≡ some old) where
  read : (j : ℕ) → get_elem? (set xs i new) j ≡ (if i == j then some new else get_elem? xs j)
  read j = ground (arith, get_elem?-set xs i j new, get_elem?_bound xs i at)

  pub Unique-set :
      ((j : ℕ) (b : ProcessSlot)
        → get_elem? xs j ≡ some b
        → is_live b ≡ true
        → b.pid ≡ new.pid
        → is_live new ≡ true
        → j ≡ i)
      → Unique (set xs i new)
  Unique-set only = record {
    places = λ j k a b ea eb la lb same.
        ground (arith, read j, read k, u.places j k a b, only j a, only k b);
  }

  -- What each number finds after a write to one slot.
  pub lookup-set :
      (q : ℕ)
      → Unique (set xs i new)
      → lookup q (set xs i new)
        ≡ (if is_process q new then some new else if is_process q old then none else lookup q xs)
  lookup-set q v = elim (Bool-cases (is_process q new)) [
    | inl p ↦ rw p (lookup_at q (set xs i new) i new v (ground (arith, read i)) p)
    | inr n ↦ rw n (elim (Bool-cases (is_process q old)) [
      | inl p ↦ rw p (lookup_nowhere q (set xs i new) (λ j s e. left n p j s e))
      | inr m ↦ rw m (kept n m (lookup q xs) refl)
    ])
  ]
    where
      left :
          is_process q new ≡ false
          → is_process q old ≡ true
          → (j : ℕ) (s : ProcessSlot) → get_elem? (set xs i new) j ≡ some s
          → is_process q s ≡ false
      left n p j s e = ground (arith, read j, u.places i j old s at)

      kept :
          is_process q new ≡ false
          → is_process q old ≡ false
          → (o : Option ProcessSlot) → lookup q xs ≡ o
          → lookup q (set xs i new) ≡ lookup q xs
      kept n m none e =
          rw e (lookup_nowhere q (set xs i new) (λ j s f. ground (arith, read j, missing j s)))
        where
          missing : (j : ℕ) (s : ProcessSlot) → get_elem? xs j ≡ some s → is_process q s ≡ false
          missing j s f = elim (Bool-cases (is_process q s)) [
            | inl t ↦ absurd (ground (arith, lookup_at q xs j s u f t))
            | inr t ↦ t
          ]
      kept n m (some s) e =
          let (j, f, t) = lookup_place q xs s e in
          rw e (lookup_at q (set xs i new) j s v (ground (arith, read j)) t)
