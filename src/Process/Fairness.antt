-- ===== src/Process/Fairness.antt =====
-- The scheduler's choice of a process number in cyclic order.
use slopos.Base.{
  ℕ, ◌≤◌, ◌<◌, ◌≡◌, refl, true, false, Bool, Option, some, none, List, [], ◌∷◌, get_elem?, arith,
  inl, inr, Option-cases, Bool-cases, leb, filter, map, zero, suc, if◌then◌else◌,
}
use slopos.Process.Table.{ProcessSlot, ProcessTable, is_schedulable}
use slopos.Process.Scheduler.{min_of, or_else, is_schedulable_after, next_schedulable_after}

-- The slot of the least number among those that pass a test.
pub record Least (p : ProcessSlot → Bool) (xs : List ProcessSlot) (n : ℕ) : Type 0 where
  pub i : ℕ
  pub slot : ProcessSlot
  pub at : get_elem? xs i ≡ some slot
  pub holds : p slot ≡ true
  pub number : slot.pid ≡ n
  pub least : (j : ℕ) (s : ProcessSlot) → get_elem? xs j ≡ some s → p s ≡ true → n ≤ s.pid

abbrev numbers : (ProcessSlot → Bool) → List ProcessSlot → List ℕ
numbers p xs = map (λ (s : ProcessSlot). s.pid) (filter p xs)

-- The minimum by cases on the first slot.
unfoldable smaller : ℕ → Option ℕ → Option ℕ
smaller n none = some n
smaller n (some m) = some (if leb n m then n else m)

min_of-numbers :
    (p : ProcessSlot → Bool) (x : ProcessSlot) (xs : List ProcessSlot)
    → min_of (numbers p (x ∷ xs))
      ≡ (if p x then smaller x.pid (min_of (numbers p xs)) else min_of (numbers p xs))
unfolding min_of smaller
min_of-numbers p x xs = elim (Bool-cases (p x)) [
  | inl e ↦ elim (Option-cases (min_of (numbers p xs))) [
    | inl f ↦ rw (e, f) refl
    | inr (m, f) ↦ rw (e, f) refl
  ]
  | inr e ↦ rw e refl
]

-- What the minimum over the slots that pass a test is.
Minimum : (ProcessSlot → Bool) → List ProcessSlot → Option ℕ → Type 0
Minimum p xs none = (j : ℕ) (s : ProcessSlot) → get_elem? xs j ≡ some s → p s ≡ false
Minimum p xs (some n) = Least p xs n

lower_bound :
    (p : ProcessSlot → Bool) (x : ProcessSlot) (xs : List ProcessSlot) (n : ℕ)
    → (p x ≡ true → n ≤ x.pid)
    → ((j : ℕ) (s : ProcessSlot) → get_elem? xs j ≡ some s → p s ≡ true → n ≤ s.pid)
    → (j : ℕ) (s : ProcessSlot) → get_elem? (x ∷ xs) j ≡ some s
    → p s ≡ true
    → n ≤ s.pid
lower_bound p x xs n first rest zero s at h = ground (arith, first)
lower_bound p x xs n first rest (suc j) s at h = rest j s at h

Least-here :
    (p : ProcessSlot → Bool) (x : ProcessSlot) (xs : List ProcessSlot)
    → p x ≡ true
    → ((j : ℕ) (s : ProcessSlot) → get_elem? xs j ≡ some s → p s ≡ true → x.pid ≤ s.pid)
    → Least p (x ∷ xs) x.pid
Least-here p x xs e low = record {
  i = 0;
  slot = x;
  at = refl;
  holds = e;
  number = refl;
  least = lower_bound p x xs x.pid (λ h. omega arith) low;
}

Least-later :
    (p : ProcessSlot → Bool) (x : ProcessSlot) (xs : List ProcessSlot) (n : ℕ)
    → (p x ≡ true → n ≤ x.pid)
    → Least p xs n
    → Least p (x ∷ xs) n
Least-later p x xs n first m = record {
  i = suc m.i;
  slot = m.slot;
  at = m.at;
  holds = m.holds;
  number = m.number;
  least = lower_bound p x xs n first m.least;
}

Minimum-skip :
    (p : ProcessSlot → Bool) (x : ProcessSlot) (xs : List ProcessSlot) (o : Option ℕ)
    → p x ≡ false
    → Minimum p xs o
    → Minimum p (x ∷ xs) o
unfolding Minimum
Minimum-skip p x xs none e m = λ j s at. skipped j s at
  where
    skipped : (j : ℕ) (s : ProcessSlot) → get_elem? (x ∷ xs) j ≡ some s → p s ≡ false
    skipped zero s at = ground arith
    skipped (suc j) s at = m j s at
Minimum-skip p x xs (some n) e m = Least-later p x xs n (λ h. absurd (ground arith)) m

Minimum-smaller :
    (p : ProcessSlot → Bool) (x : ProcessSlot) (xs : List ProcessSlot) (o : Option ℕ)
    → p x ≡ true
    → Minimum p xs o
    → Minimum p (x ∷ xs) (smaller x.pid o)
unfolding Minimum smaller
Minimum-smaller p x xs none e m =
    Least-here p x xs e (λ j s at h. absurd (ground (arith, m j s at)))
Minimum-smaller p x xs (some n) e m = elim (Bool-cases (leb x.pid n)) [
  | inl h ↦ rw h (Least-here p x xs e (λ j s at k. ground (arith, m.least j s at k)))
  | inr h ↦ rw h (Least-later p x xs n (λ k. ground arith) m)
]

numbers-Minimum :
    (p : ProcessSlot → Bool) (xs : List ProcessSlot) → Minimum p xs (min_of (numbers p xs))
unfolding min_of Minimum
numbers-Minimum p [] = λ j s at. absurd (cc)
numbers-Minimum p (x ∷ xs) = elim (Bool-cases (p x)) [
  | inl e ↦
      rw (min_of-numbers p x xs, e)
        (Minimum-smaller p x xs (min_of (numbers p xs)) e (numbers-Minimum p xs))
  | inr e ↦
      rw (min_of-numbers p x xs, e)
        (Minimum-skip p x xs (min_of (numbers p xs)) e (numbers-Minimum p xs))
]

-- The next number in cyclic order.
pub data RoundRobin (t : ProcessTable) (pid : ℕ) : Option ℕ → Type 0 where
  idle :
      ((j : ℕ) (s : ProcessSlot) → get_elem? t.slots j ≡ some s → is_schedulable s ≡ false)
      → RoundRobin t pid none
  later : (n : ℕ) → pid < n → Least (is_schedulable_after pid) t.slots n → RoundRobin t pid (some n)
  again :
      (n : ℕ)
      → ((j : ℕ) (s : ProcessSlot)
          → get_elem? t.slots j ≡ some s
          → is_schedulable s ≡ true
          → s.pid ≤ pid)
      → Least is_schedulable t.slots n
      → RoundRobin t pid (some n)

-- `next_schedulable_after` returns the least schedulable process number above the given one, or,
-- where there is none above it, the least of all, and None only where no process is schedulable.
pub next_schedulable_after-RoundRobin :
    (t : ProcessTable) (pid : ℕ) → RoundRobin t pid (next_schedulable_after t pid)
unfolding next_schedulable_after Minimum
next_schedulable_after-RoundRobin t pid =
    choose (min_of (numbers (is_schedulable_after pid) t.slots))
      (min_of (numbers is_schedulable t.slots)) (numbers-Minimum (is_schedulable_after pid) t.slots)
      (numbers-Minimum is_schedulable t.slots)
  where
    choose :
        (above any : Option ℕ)
        → Minimum (is_schedulable_after pid) t.slots above
        → Minimum is_schedulable t.slots any
        → RoundRobin t pid (or_else above any)
    choose (some n) any m k = later n (ground (arith, m.holds, m.number)) m
    choose none none m k = idle k
    choose none (some n) m k = again n (λ j s at h. ground (arith, m j s at)) k
