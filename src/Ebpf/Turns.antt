-- ===== src/Ebpf/Turns.antt =====
-- ebpf/src/lib.rs: the parts of one turn of `execute`, on a machine of the right shape.
use slopos.Ebpf.Machine.{
  Machine, Stop, failed, division_by_zero, load_stack, store_stack, read_register, write_register,
  apply_alu, stack_address, branch_pc, with_registers, start,
}
use slopos.Base.{
  if◌then◌else◌, ℕ, zero, suc, ◌+◌, ◌*◌, ◌/◌, ◌%◌, ◌≤◌, ◌<◌, ◌≡◌, ◌≢◌, ◌==◌, ◌⊎◌, inl, inr, refl,
  sym, ◌∙◌, ap, true, List, [], ◌∷◌, some, ok, err, Result, length, length-set, set, Bool-cases,
  arith, leb, contains, All, get_elem?-some, length-replicate, subst, ==_iff, Option-cases,
}
use slopos.Ebpf.{
  register_count, max_instructions, stack_size, stack_start, Class, wide_immediate, alu_immediate,
  alu_register, classify, is_alu_immediate, is_alu_register, alu_immediates, alu_registers,
}
use slopos.Ebpf.Verifier.{require_stack_access, jump_target}

pub load_stack_total :
    (stack : List ℕ) (at size : ℕ)
    → at + size ≤ length stack
    → (v : ℕ) × (load_stack stack at size ≡ some v)
unfolding load_stack
load_stack_total stack at zero h = (0, refl)
load_stack_total stack at (suc size) h =
    let (byte, f) = get_elem?-some stack at (omega arith) in
    let (high, g) = load_stack_total stack (at + 1) size (omega arith) in
    (byte + 256 * high, ground arith)

pub store_stack_total :
    (stack : List ℕ) (at size value : ℕ)
    → at + size ≤ length stack
    → (next : List ℕ) × (store_stack stack at size value ≡ some next) × (length next ≡ length stack)
unfolding store_stack
store_stack_total stack at zero value h = (stack, refl, refl)
store_stack_total stack at (suc size) value h =
    let (old, f) = get_elem?-some stack at (omega arith) in
    let kept = length-set stack at (value % 256) in
    let next =
      store_stack_total (set stack at (value % 256)) (at + 1) size (value / 256)
        (omega (arith, kept)) in
    (next.0, ground (arith, next.1), next.2 ∙ kept)

-- Both access checks have the same test.
pub require_stack_access_ok :
    (pc base offset size later : ℕ)
    → require_stack_access pc base offset size ≡ ok tt
    → (at : ℕ) × (stack_address offset size later ≡ ok at) × (at + size ≤ stack_size)
unfolding require_stack_access stack_address
require_stack_access_ok pc base offset size later h = elim (Option-cases (stack_start offset)) [
  | inl f ↦ elim (Bool-cases (base == 10)) [
    | inl g ↦ absurd (ground arith)
    | inr g ↦ absurd (ground arith)
  ]
  | inr (at, f) ↦ elim (Bool-cases (base == 10)) [
    | inr g ↦ absurd (ground arith)
    | inl g ↦ elim (Bool-cases (leb (at + size) stack_size)) [
      | inr k ↦ absurd (ground arith)
      | inl k ↦ (at, ground arith, ground arith)
    ]
  ]
]

pub jump_target_ok :
    (size pc offset target : ℕ)
    → jump_target size pc offset ≡ ok target
    → size ≤ max_instructions
    → (branch_pc pc offset ≡ target) × (pc < target) × (target < size)
unfolding jump_target branch_pc
jump_target_ok size pc offset target h le = ground arith

pub classify_wide : (opcode : ℕ) → classify opcode ≡ wide_immediate → opcode ≡ 0x18
unfolding classify
classify_wide opcode h = ground arith

pub classify_not_wide :
    (opcode : ℕ) (c : Class) → classify opcode ≡ c → wide_immediate ≢ c → opcode ≢ 0x18
unfolding classify
classify_not_wide opcode c h other e = other (ap classify (sym e) ∙ h)

classify_alu_immediate :
    (opcode : ℕ) → classify opcode ≡ alu_immediate → is_alu_immediate opcode ≡ true
unfolding classify
classify_alu_immediate opcode h = ground arith

classify_alu_register :
    (opcode : ℕ) → classify opcode ≡ alu_register → is_alu_register opcode ≡ true
unfolding classify
classify_alu_register opcode h = ground arith

-- An operation that the ALU knows has a result, or divides by zero.
AluResult : ℕ → Type 0
AluResult opcode =
    (value rhs pc : ℕ)
    → ((result : ℕ) × (apply_alu opcode value rhs pc ≡ ok result))
      ⊎ (apply_alu opcode value rhs pc ≡ err (failed (division_by_zero pc)))

contains-All : (P : ℕ → Type 0) (xs : List ℕ) (x : ℕ) → All P xs → contains xs x ≡ true → P x
contains-All P [] x ps h = absurd (cc)
contains-All P (y ∷ xs) x ps h = elim (Bool-cases (y == x)) [
  | inl e ↦ subst P ((==_iff y x).0 e) ps.0
  | inr e ↦ contains-All P xs x ps.1 (ground arith)
]

-- A division, at an opcode that divides
divides :
    (value rhs pc result : ℕ)
    → ((q : ℕ) × (◌≡◌ {A = Result Stop ℕ}
          (if rhs == 0 then err (failed (division_by_zero pc)) else ok result)
          (ok q)))
      ⊎ (◌≡◌ {A = Result Stop ℕ}
          (if rhs == 0 then err (failed (division_by_zero pc)) else ok result)
          (err (failed (division_by_zero pc))))
divides value rhs pc result = elim (Bool-cases (rhs == 0)) [
  | inl f ↦ inr (rw f refl)
  | inr f ↦ inl (result, rw f refl)
]

alu_immediates_have : All AluResult alu_immediates
unfolding AluResult apply_alu
alu_immediates_have = (
  λ a b pc. inl (_, refl),
  (
    λ a b pc. inl (_, refl),
    (
      λ a b pc. inl (_, refl),
      (
        λ a b pc. divides a b pc _,
        (
          λ a b pc. inl (_, refl),
          (
            λ a b pc. inl (_, refl),
            (
              λ a b pc. inl (_, refl),
              (
                λ a b pc. inl (_, refl),
                (
                  λ a b pc. divides a b pc _,
                  (λ a b pc. inl (_, refl), (λ a b pc. inl (_, refl), tt)),
                ),
              ),
            ),
          ),
        ),
      ),
    ),
  ),
)

alu_registers_have : All AluResult alu_registers
unfolding AluResult apply_alu
alu_registers_have = alu_immediates_have

pub alu_immediate-result :
    (opcode value rhs pc : ℕ)
    → classify opcode ≡ alu_immediate
    → ((result : ℕ) × (apply_alu opcode value rhs pc ≡ ok result))
      ⊎ (apply_alu opcode value rhs pc ≡ err (failed (division_by_zero pc)))
unfolding AluResult is_alu_immediate
alu_immediate-result opcode value rhs pc h =
    contains-All AluResult alu_immediates opcode alu_immediates_have
      (classify_alu_immediate opcode h) value rhs pc

pub alu_register-result :
    (opcode value rhs pc : ℕ)
    → classify opcode ≡ alu_register
    → ((result : ℕ) × (apply_alu opcode value rhs pc ≡ ok result))
      ⊎ (apply_alu opcode value rhs pc ≡ err (failed (division_by_zero pc)))
unfolding AluResult is_alu_register
alu_register-result opcode value rhs pc h =
    contains-All AluResult alu_registers opcode alu_registers_have (classify_alu_register opcode h)
      value rhs pc

module _ {S : Type 0} where
  -- A machine of the shape that the arrays of `execute` have
  pub record Shaped (m : Machine S) : Type 0 where
    pub registers : length m.registers ≡ register_count
    pub stack : length m.stack ≡ stack_size

  pub read_register_total :
      (m : Machine S) (r : ℕ) → Shaped m → r < register_count → (v : ℕ) × (read_register m r ≡ ok v)
  unfolding read_register
  read_register_total m r h le =
      let (v, f) = get_elem?-some m.registers r (omega (arith, h.registers)) in (v, ground arith)

  pub write_register_total :
      (m : Machine S) (r v : ℕ)
      → Shaped m
      → r < register_count
      → (next : Machine S) × (write_register m r v ≡ ok next) × Shaped next
  unfolding write_register with_registers
  write_register_total m r v h le = (
    with_registers m (set m.registers r v),
    ground (arith, h.registers),
    record { registers = length-set m.registers r v ∙ h.registers; stack = h.stack },
  )

  pub start-Shaped : (s : S) (context : ℕ) → Shaped (start s context)
  unfolding start
  start-Shaped s context = record {
    registers = refl;
    stack = length-replicate {A = ℕ} stack_size 0;
  }
