-- ===== src/Ebpf/Stack.antt =====
-- ebpf/src/lib.rs: what a load from the stack gives back of a store.
use slopos.Base.{
  ℕ, zero, suc, ◌+◌, ◌*◌, ◌/◌, ◌%◌, ◌^◌, ◌≤◌, ◌<◌, ◌≡◌, List, some, get_elem?, set, get_elem?-set,
  arith, get_elem?_bound, Option-cases, ◌⊎◌, inr, inl, ap,
}
use native.Mathlib.Nat.{div-add-mod, mul_assoc, div-div-eq-div-mul}
use slopos.Ebpf.Machine.{load_stack, store_stack}

-- A store leaves the bytes in front of its place.
store_stack_before :
    (stack next : List ℕ) (at size value j : ℕ)
    → store_stack stack at size value ≡ some next
    → j < at
    → get_elem? next j ≡ get_elem? stack j
unfolding store_stack
store_stack_before stack next at zero value j h le = ground arith
store_stack_before stack next at (suc size) value j h le =
    elim (Option-cases (get_elem? stack at)) [
      | inl f ↦ absurd (ground arith)
      | inr (old, f) ↦
          let r : store_stack (set stack at (value % 256)) (at + 1) size (value / 256) ≡ some next =
            ground arith in
          ground (
            arith,
            store_stack_before (set stack at (value % 256)) next (at + 1) size (value / 256) j r
                (omega arith),
            get_elem?-set stack at j (value % 256),
          )
    ]

store_stack_behind :
    (stack next : List ℕ) (at size value j : ℕ)
    → store_stack stack at size value ≡ some next
    → at + size ≤ j
    → get_elem? next j ≡ get_elem? stack j
unfolding store_stack
store_stack_behind stack next at zero value j h le = ground arith
store_stack_behind stack next at (suc size) value j h le =
    elim (Option-cases (get_elem? stack at)) [
      | inl f ↦ absurd (ground arith)
      | inr (old, f) ↦
          let r : store_stack (set stack at (value % 256)) (at + 1) size (value / 256) ≡ some next =
            ground arith in
          ground (
            arith,
            store_stack_behind (set stack at (value % 256)) next (at + 1) size (value / 256) j r
                (omega arith),
            get_elem?-set stack at j (value % 256),
          )
    ]

low_byte : (value d : ℕ) → value % (256 * d) ≡ value % 256 + 256 * (value / 256 % d)
low_byte value d = omega (
  arith,
  div-add-mod value (256 * d),
  mul_assoc 256 d (value / (256 * d)),
  ap (◌*◌ d) (div-div-eq-div-mul value 256 d),
  div-add-mod (value / 256) d,
)

load_stack-store_stack :
    (stack next : List ℕ) (at size value : ℕ)
    → store_stack stack at size value ≡ some next
    → load_stack next at size ≡ some (value % 256 ^ size)
unfolding store_stack load_stack
load_stack-store_stack stack next at zero value h = ap some (omega arith)
load_stack-store_stack stack next at (suc size) value h = elim (Option-cases (get_elem? stack at)) [
  | inl f ↦ absurd (ground arith)
  | inr (old, f) ↦
      let r : store_stack (set stack at (value % 256)) (at + 1) size (value / 256) ≡ some next =
        ground arith in
      let low =
        store_stack_before (set stack at (value % 256)) next (at + 1) size (value / 256) at r
          (omega arith) in
      let high =
        load_stack-store_stack (set stack at (value % 256)) next (at + 1) size (value / 256) r in
      ground (
        arith,
        low,
        high,
        get_elem?-set stack at at (value % 256),
        get_elem?_bound stack at f,
        low_byte value (256 ^ size),
      )
]

-- Where `store_stack` succeeds, `load_stack` at the same place and of the same size gives the low
-- bytes of the stored value, and all other bytes of the stack are as they were.
pub stack_round_trip :
    (stack next : List ℕ) (at size value : ℕ)
    → store_stack stack at size value ≡ some next
    → (load_stack next at size ≡ some (value % 256 ^ size))
      × ((j : ℕ) → (j < at) ⊎ (at + size ≤ j) → get_elem? next j ≡ get_elem? stack j)
stack_round_trip stack next at size value h =
    (load_stack-store_stack stack next at size value h, elsewhere)
  where
    elsewhere : (j : ℕ) → (j < at) ⊎ (at + size ≤ j) → get_elem? next j ≡ get_elem? stack j
    elsewhere j (inl le) = store_stack_before stack next at size value j h le
    elsewhere j (inr le) = store_stack_behind stack next at size value j h le
