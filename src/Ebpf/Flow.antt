-- ===== src/Ebpf/Flow.antt =====
-- ebpf/src/lib.rs: how the second pass of `verify` hands on the sets of registers. Bit 15 of a set
-- stands for no register: it is set in UNREACHED alone.
use slopos.Base.{
  ℕ, zero, suc, ◌≤◌, ◌<◌, ◌≡◌, ◌≢◌, ◌==◌, ◌⊎◌, inl, inr, refl, sym, ◌∙◌, Bool, true, false, ◌&&◌,
  List, [], ◌∷◌, ok, length, length-set, set, Bool-cases, arith, ltb, length-replicate, replicate,
  subst,
}
use slopos.Ebpf.Verifier.{
  RegisterSet, has_register, intersect, is_unreached, incoming_at, propagate, with_register,
  after_call, first_incoming, entry_state, unreached, merged,
}
use slopos.Ebpf.{register_count, max_instructions}

pub decide : (i j : ℕ) → (i ≡ j) ⊎ (i ≢ j)
decide i j = elim (Bool-cases (i == j)) [ inl e ↦ inl (ground arith) | inr e ↦ inr (ground arith) ]

has_register-set_other :
    (s : RegisterSet) (i j : ℕ) (v : Bool) → i ≢ j → has_register (set s i v) j ≡ has_register s j
unfolding has_register
has_register-set_other [] i j v h = refl
has_register-set_other (x ∷ s) zero zero v h = absurd (h refl)
has_register-set_other (x ∷ s) zero (suc j) v h = refl
has_register-set_other (x ∷ s) (suc i) zero v h = refl
has_register-set_other (x ∷ s) (suc i) (suc j) v h =
    has_register-set_other s i j v (λ e. h (omega arith))

has_register-intersect :
    (s t : RegisterSet) (r : ℕ)
    → length s ≡ length t
    → has_register (intersect s t) r ≡ (has_register s r && has_register t r)
unfolding has_register intersect
has_register-intersect [] [] r h = refl
has_register-intersect [] (y ∷ t) r h = absurd (omega arith)
has_register-intersect (x ∷ s) [] r h = absurd (omega arith)
has_register-intersect (x ∷ s) (y ∷ t) zero h = refl
has_register-intersect (x ∷ s) (y ∷ t) (suc r) h = has_register-intersect s t r (omega arith)

length-intersect : (s t : RegisterSet) → length s ≡ length t → length (intersect s t) ≡ length s
unfolding intersect
length-intersect [] t h = refl
length-intersect (x ∷ s) [] h = absurd (omega arith)
length-intersect (x ∷ s) (y ∷ t) h = omega (arith, length-intersect s t (omega arith))

pub is_unreached-false :
    (s : RegisterSet) (r : ℕ) → r < length s → has_register s r ≡ false → is_unreached s ≡ false
unfolding has_register is_unreached
is_unreached-false [] r h e = elim h [ ]
is_unreached-false (x ∷ s) zero h e = ground arith
is_unreached-false (x ∷ s) (suc r) h e = ground (arith, is_unreached-false s r (omega arith) e)

incoming_at-set_other :
    (ss : List RegisterSet) (i j : ℕ) (s : RegisterSet)
    → i ≢ j
    → incoming_at (set ss i s) j ≡ incoming_at ss j
unfolding incoming_at
incoming_at-set_other [] i j s h = refl
incoming_at-set_other (x ∷ ss) zero zero s h = absurd (h refl)
incoming_at-set_other (x ∷ ss) zero (suc j) s h = refl
incoming_at-set_other (x ∷ ss) (suc i) zero s h = refl
incoming_at-set_other (x ∷ ss) (suc i) (suc j) s h =
    incoming_at-set_other ss i j s (λ e. h (omega arith))

incoming_at-set_same :
    (ss : List RegisterSet) (i : ℕ) (s : RegisterSet)
    → i < length ss
    → incoming_at (set ss i s) i ≡ s
unfolding incoming_at
incoming_at-set_same [] i s h = elim h [ ]
incoming_at-set_same (x ∷ ss) zero s h = refl
incoming_at-set_same (x ∷ ss) (suc i) s h = incoming_at-set_same ss i s (omega arith)

-- A set that some instruction is reached with
pub record IsState (s : RegisterSet) : Type 0 where
  pub width : length s ≡ 16
  pub plain : has_register s 15 ≡ false

-- The array of states: as many as there may be instructions, each of a u16.
pub record States (incoming : List RegisterSet) : Type 0 where
  pub size : length incoming ≡ max_instructions
  pub widths : (k : ℕ) → length (incoming_at incoming k) ≡ 16
  pub plain :
      (k : ℕ)
      → is_unreached (incoming_at incoming k) ≡ false
      → has_register (incoming_at incoming k) 15 ≡ false

-- Every register of the one is in the other.
abbrev pub Within : RegisterSet → RegisterSet → Type 0
Within s t = (r : ℕ) → has_register s r ≡ true → has_register t r ≡ true

-- A place that was reached with one set is reached with another, which has no register more.
pub record Kept (old new : RegisterSet) : Type 0 where
  pub state : IsState new
  pub fewer : Within new old

-- What is handed to a place: the states stay such, and the place is within the program and reached.
pub record Handed (incoming next : List RegisterSet) (size target : ℕ) (state : RegisterSet)
    : Type 0 where
  pub states : States next
  pub within : target < size
  pub reaches : IsState (incoming_at next target)
  pub fewer : Within (incoming_at next target) state
  pub keeps :
      (q : ℕ)
      → IsState (incoming_at incoming q)
      → Kept (incoming_at incoming q) (incoming_at next q)

pub with_register-IsState :
    (s : RegisterSet) (r : ℕ) → IsState s → r < register_count → IsState (with_register s r)
unfolding with_register
with_register-IsState s r h le = record {
  width = length-set s r true ∙ h.width;
  plain = has_register-set_other s r 15 true (λ e. omega arith) ∙ h.plain;
}

pub after_call-IsState : (s : RegisterSet) → IsState s → IsState (after_call s)
unfolding after_call
after_call-IsState s h = record {
  width =
      length-set (set (set (set (set (set s 1 false) 2 false) 3 false) 4 false) 5 false) 0 true
      ∙ length-set (set (set (set (set s 1 false) 2 false) 3 false) 4 false) 5 false
      ∙ length-set (set (set (set s 1 false) 2 false) 3 false) 4 false
      ∙ length-set (set (set s 1 false) 2 false) 3 false
      ∙ length-set (set s 1 false) 2 false
      ∙ length-set s 1 false
      ∙ h.width;
  plain =
      has_register-set_other (set (set (set (set (set s 1 false) 2 false) 3 false) 4 false) 5 false)
        0 15 true (λ e. omega arith)
      ∙ has_register-set_other (set (set (set (set s 1 false) 2 false) 3 false) 4 false) 5 15 false
          (λ e. omega arith)
      ∙ has_register-set_other (set (set (set s 1 false) 2 false) 3 false) 4 15 false
          (λ e. omega arith)
      ∙ has_register-set_other (set (set s 1 false) 2 false) 3 15 false (λ e. omega arith)
      ∙ has_register-set_other (set s 1 false) 2 15 false (λ e. omega arith)
      ∙ has_register-set_other s 1 15 false (λ e. omega arith)
      ∙ h.plain;
}

merged-IsState : (old s : RegisterSet) → length old ≡ 16 → IsState s → IsState (merged old s)
unfolding merged
merged-IsState old s w h = elim (Bool-cases (is_unreached old)) [
  | inl f ↦ rw f h
  | inr f ↦ rw f (record {
    width = length-intersect old s (w ∙ sym h.width) ∙ w;
    plain = ground (arith, has_register-intersect old s 15 (w ∙ sym h.width), h.plain);
  })
]

merged-Within : (old s : RegisterSet) → length old ≡ length s → Within (merged old s) s
unfolding merged
merged-Within old s w r h = elim (Bool-cases (is_unreached old)) [
  | inl f ↦ ground arith
  | inr f ↦ ground (arith, has_register-intersect old s r w)
]

merged-Kept : (old s : RegisterSet) → IsState old → IsState s → Kept old (merged old s)
unfolding merged
merged-Kept old s was st = record {
  state = merged-IsState old s was.width st;
  fewer = λ r h. ground (
    arith,
    h,
    is_unreached-false old 15 (omega (arith, was.width)) was.plain,
    has_register-intersect old s r (was.width ∙ sym st.width),
  );
}

pub propagate-Handed :
    (incoming next : List RegisterSet) (size target pc : ℕ) (state : RegisterSet)
    → propagate incoming size target state pc ≡ ok next
    → size ≤ max_instructions
    → States incoming
    → IsState state
    → Handed incoming next size target state
unfolding propagate
propagate-Handed incoming next size target pc state h le ss st =
    elim (Bool-cases (ltb target size)) [
      | inr f ↦ absurd (ground arith)
      | inl f ↦
          let new = merged (incoming_at incoming target) state in
          let e : set incoming target new ≡ next = ground arith in
          let inside : target < size = ground arith in
          let here : incoming_at (set incoming target new) target ≡ new =
            incoming_at-set_same incoming target new (omega (arith, ss.size)) in
          let fine = merged-IsState (incoming_at incoming target) state (ss.widths target) st in
          let at : (q : ℕ) → (target ≡ q) ⊎ (target ≢ q) = λ q. decide target q in
          subst (λ n. Handed incoming n size target state) e
            (record {
              states = record {
                size = length-set incoming target new ∙ ss.size;
                widths = λ k. elim (at k) [
                  | inl s ↦
                      subst (λ t. length (incoming_at (set incoming target new) t) ≡ 16) s
                        (rw here fine.width)
                  | inr o ↦ rw (incoming_at-set_other incoming target k new o) (ss.widths k)
                ];
                plain = λ k visited. elim (at k) [
                  | inl s ↦
                      subst (λ t. has_register (incoming_at (set incoming target new) t) 15 ≡ false)
                        s (rw here fine.plain)
                  | inr o ↦
                      ground (arith, ss.plain k, incoming_at-set_other incoming target k new o)
                ];
              };
              within = inside;
              reaches = rw here fine;
              fewer = rw here (
                  merged-Within (incoming_at incoming target) state
                    (ss.widths target ∙ sym st.width));
              keeps = λ q was. elim (at q) [
                | inl s ↦
                    subst
                      (λ t. Kept (incoming_at incoming t) (incoming_at (set incoming target new) t))
                      s
                      (rw here (
                        merged-Kept (incoming_at incoming target) state
                          (subst (λ t. IsState (incoming_at incoming t)) (sym s) was) st))
                | inr o ↦
                    rw (incoming_at-set_other incoming target q new o)
                      (record { state = was; fewer = λ r h. h })
              ];
            })
    ]

length-incoming_at-replicate : (n k : ℕ) → length (incoming_at (replicate n unreached) k) ≡ 16
unfolding incoming_at
length-incoming_at-replicate zero k = refl
length-incoming_at-replicate (suc n) zero = refl
length-incoming_at-replicate (suc n) (suc k) = length-incoming_at-replicate n k

first_widths : (n k : ℕ) → length (incoming_at (set (replicate n unreached) 0 entry_state) k) ≡ 16
unfolding incoming_at
first_widths zero k = refl
first_widths (suc n) zero = refl
first_widths (suc n) (suc k) = length-incoming_at-replicate n k

is_unreached-incoming_at-replicate :
    (n k : ℕ) → is_unreached (incoming_at (replicate n unreached) k) ≡ true
unfolding incoming_at is_unreached
is_unreached-incoming_at-replicate zero k = refl
is_unreached-incoming_at-replicate (suc n) zero = refl
is_unreached-incoming_at-replicate (suc n) (suc k) = is_unreached-incoming_at-replicate n k

first_plain :
    (n k : ℕ)
    → is_unreached (incoming_at (set (replicate n unreached) 0 entry_state) k) ≡ false
    → has_register (incoming_at (set (replicate n unreached) 0 entry_state) k) 15 ≡ false
unfolding incoming_at has_register is_unreached
first_plain zero k h = absurd (cc)
first_plain (suc n) zero h = refl
first_plain (suc n) (suc k) h = absurd (ground (arith, is_unreached-incoming_at-replicate n k))

pub first-States : States first_incoming
first-States = record {
  size =
      length-set (replicate max_instructions unreached) 0 entry_state
      ∙ length-replicate max_instructions unreached;
  widths = first_widths max_instructions;
  plain = first_plain max_instructions;
}

entry_state-IsState :
    (n : ℕ) → IsState (incoming_at (set (replicate (suc n) unreached) 0 entry_state) 0)
unfolding incoming_at has_register
entry_state-IsState n = record { width = refl; plain = refl }

pub first-IsState : IsState (incoming_at first_incoming 0)
first-IsState = entry_state-IsState 4095
