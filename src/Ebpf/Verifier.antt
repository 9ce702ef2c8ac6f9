-- ===== src/Ebpf/Verifier.antt =====
-- ebpf/src/lib.rs: `verify`, the two passes that a filter must get through. A u16 set of registers
-- is the list of its bits, the lowest first. The arrays have a place for each of the 4096
-- instructions that a program may have.
use slopos.Base.{
  ℕ, zero, suc, ◌+◌, ◌==◌, Bool, true, false, not, ◌&&◌, ◌||◌, List, [], ◌∷◌, some, none, Result,
  ok, err, ◌>>=◌, ◌>>◌, ensure, if◌then◌else◌, ltb, leb, length, set, replicate, contains,
}
use slopos.Ebpf.{
  Instruction, destination, source, max_instructions, register_count, stack_size, stack_start,
  access_size, is_supported_opcode, Class, wide_immediate, move_immediate, move_register,
  alu_immediate, alu_register, negate, stack_load, stack_store_immediate, stack_store_register,
  jump, jump_immediate, jump_register, call, exit, other, classify,
}

pub data VerifyError : Type 0 where
  empty_program program_too_large missing_exit : VerifyError
  invalid_opcode invalid_register uninitialized_register invalid_helper : ℕ → ℕ → VerifyError
  frame_pointer_write invalid_jump backward_jump jump_into_wide_immediate : ℕ → VerifyError
  truncated_wide_immediate invalid_wide_immediate invalid_stack_base : ℕ → VerifyError
  stack_out_of_bounds reachable_fallthrough : ℕ → VerifyError

unfoldable pub validate_register_numbers : ℕ → Instruction → Result VerifyError (Unit {0})
unfolding destination source
validate_register_numbers pc i =
    ensure (ltb (destination i) register_count) (invalid_register pc (destination i))
    >> ensure (ltb (source i) register_count) (invalid_register pc (source i))

-- The second half of a wide immediate has nothing but its immediate.
unfoldable pub is_continuation : Instruction → Instruction → Bool
unfolding source
is_continuation i c =
    (source i == 0) && ((c.opcode == 0) && ((c.registers == 0) && (c.offset == 0)))

-- The first pass, from `pc` on: it marks the second halves of wide immediates.
unfoldable pub scan : List Instruction → ℕ → List Bool → Result VerifyError (List Bool)
unfolding validate_register_numbers is_continuation is_supported_opcode
scan [] pc wide_second = ok wide_second
scan (i ∷ []) pc wide_second = validate_register_numbers pc i >> elim (i.opcode == 0x18) [
  | true ↦ err (truncated_wide_immediate pc)
  | false ↦ ensure (is_supported_opcode i.opcode) (invalid_opcode pc i.opcode) >> ok wide_second
]
scan (i ∷ c ∷ rest) pc wide_second = validate_register_numbers pc i >> elim (i.opcode == 0x18) [
  | true ↦
      ensure (is_continuation i c) (invalid_wide_immediate pc)
      >> scan rest (pc + 2) (set wide_second (pc + 1) true)
  | false ↦
      ensure (is_supported_opcode i.opcode) (invalid_opcode pc i.opcode)
      >> scan (c ∷ rest) (pc + 1) wide_second
]

abbrev pub RegisterSet : Type 0
RegisterSet = List Bool

abbrev pub unreached : RegisterSet
unreached = replicate 16 true

-- `set == UNREACHED`
unfoldable pub is_unreached : RegisterSet → Bool
is_unreached [] = true
is_unreached (b ∷ bs) = b && is_unreached bs

-- The `&` of two sets of the same width
unfoldable pub intersect : RegisterSet → RegisterSet → RegisterSet
intersect [] ys = []
intersect (x ∷ xs) [] = []
intersect (x ∷ xs) (y ∷ ys) = (x && y) ∷ intersect xs ys

-- `set & (1 << register) != 0`
unfoldable pub has_register : RegisterSet → ℕ → Bool
has_register [] register = false
has_register (b ∷ bs) zero = b
has_register (b ∷ bs) (suc register) = has_register bs register

-- The state of a program's first instruction: the context and the frame pointer are there.
abbrev pub entry_state : RegisterSet
entry_state = set (set (replicate 16 false) 1 true) 10 true

-- The state behind a call: `outgoing &= !0x3e` and `outgoing |= 1`
unfoldable pub after_call : RegisterSet → RegisterSet
after_call state =
    set (set (set (set (set (set state 1 false) 2 false) 3 false) 4 false) 5 false) 0 true

unfoldable pub incoming_at : List RegisterSet → ℕ → RegisterSet
incoming_at [] pc = unreached
incoming_at (s ∷ ss) zero = s
incoming_at (s ∷ ss) (suc pc) = incoming_at ss pc

unfoldable pub wide_at : List Bool → ℕ → Bool
wide_at [] pc = false
wide_at (b ∷ bs) zero = b
wide_at (b ∷ bs) (suc pc) = wide_at bs pc

unfoldable pub ensure_writable_destination : ℕ → ℕ → Result VerifyError (Unit {0})
ensure_writable_destination pc register = ensure (not (register == 10)) (frame_pointer_write pc)

unfoldable pub require_initialized : RegisterSet → ℕ → ℕ → Result VerifyError (Unit {0})
unfolding has_register
require_initialized initialized pc register =
    ensure (has_register initialized register) (uninitialized_register pc register)

unfoldable pub require_stack_access : ℕ → ℕ → ℕ → ℕ → Result VerifyError (Unit {0})
unfolding stack_start
require_stack_access pc base offset size =
    ensure (base == 10) (invalid_stack_base pc) >> elim (stack_start offset) [
      | none ↦ err (stack_out_of_bounds pc)
      | some start ↦ ensure (leb (start + size) stack_size) (stack_out_of_bounds pc)
    ]

-- The state of a place that was reached with one set and is reached with another
unfoldable pub merged : RegisterSet → RegisterSet → RegisterSet
unfolding is_unreached intersect
merged old state = if is_unreached old then state else intersect old state

unfoldable pub propagate :
    List RegisterSet → ℕ → ℕ → RegisterSet → ℕ → Result VerifyError (List RegisterSet)
unfolding merged incoming_at
propagate incoming size target state source_pc =
    if ltb target size
    then ok (set incoming target (merged (incoming_at incoming target) state))
    else err (reachable_fallthrough source_pc)

unfoldable pub propagate_next :
    List RegisterSet → ℕ → ℕ → RegisterSet → Result VerifyError (List RegisterSet)
unfolding propagate
propagate_next incoming size pc state = propagate incoming size (pc + 1) state pc

-- The sums stay below 2 ^ 64: a `pc` is below 4096 and an offset that is not negative below 2 ^ 15.
unfoldable pub jump_target : ℕ → ℕ → ℕ → Result VerifyError ℕ
jump_target size pc offset =
    ensure (ltb offset 32768) (backward_jump pc)
    >> (if ltb (pc + 1 + offset) size then ok (pc + 1 + offset) else err (invalid_jump pc))

unfoldable pub propagate_branch :
    List RegisterSet → List Bool → ℕ → ℕ → ℕ → RegisterSet → Result VerifyError (List RegisterSet)
unfolding propagate jump_target wide_at
propagate_branch incoming wide_second size pc offset state = do
  target ← jump_target size pc offset
  ensure (not (wide_at wide_second target)) (jump_into_wide_immediate pc)
  next ← propagate incoming size (pc + 1) state pc
  propagate next size target state pc

-- `outgoing |= 1 << register`
unfoldable pub with_register : RegisterSet → ℕ → RegisterSet
with_register state register = set state register true

-- One instruction that is reached: the states it hands on, and whether it is an exit.
unfoldable pub flow_instruction :
    List ℕ
    → ℕ
    → List Bool
    → List RegisterSet
    → ℕ
    → Instruction
    → Class
    → Result VerifyError (List RegisterSet × Bool)
unfolding destination source access_size ensure_writable_destination require_initialized
    require_stack_access propagate propagate_next jump_target propagate_branch wide_at incoming_at
    with_register after_call
flow_instruction allowed size wide_second incoming pc i wide_immediate = do
  ensure_writable_destination pc (destination i)
  next ←
      propagate incoming size (pc + 2) (with_register (incoming_at incoming pc) (destination i)) pc
  ok (next, false)
flow_instruction allowed size wide_second incoming pc i move_immediate = do
  ensure_writable_destination pc (destination i)
  next ← propagate_next incoming size pc (with_register (incoming_at incoming pc) (destination i))
  ok (next, false)
flow_instruction allowed size wide_second incoming pc i move_register = do
  ensure_writable_destination pc (destination i)
  require_initialized (incoming_at incoming pc) pc (source i)
  next ← propagate_next incoming size pc (with_register (incoming_at incoming pc) (destination i))
  ok (next, false)
flow_instruction allowed size wide_second incoming pc i alu_immediate = do
  ensure_writable_destination pc (destination i)
  require_initialized (incoming_at incoming pc) pc (destination i)
  next ← propagate_next incoming size pc (with_register (incoming_at incoming pc) (destination i))
  ok (next, false)
flow_instruction allowed size wide_second incoming pc i alu_register = do
  ensure_writable_destination pc (destination i)
  require_initialized (incoming_at incoming pc) pc (destination i)
  require_initialized (incoming_at incoming pc) pc (source i)
  next ← propagate_next incoming size pc (with_register (incoming_at incoming pc) (destination i))
  ok (next, false)
flow_instruction allowed size wide_second incoming pc i negate = do
  ensure_writable_destination pc (destination i)
  require_initialized (incoming_at incoming pc) pc (destination i)
  next ← propagate_next incoming size pc (incoming_at incoming pc)
  ok (next, false)
flow_instruction allowed size wide_second incoming pc i stack_load = do
  ensure_writable_destination pc (destination i)
  require_stack_access pc (source i) i.offset (access_size i.opcode)
  next ← propagate_next incoming size pc (with_register (incoming_at incoming pc) (destination i))
  ok (next, false)
flow_instruction allowed size wide_second incoming pc i stack_store_immediate = do
  require_stack_access pc (destination i) i.offset (access_size i.opcode)
  next ← propagate_next incoming size pc (incoming_at incoming pc)
  ok (next, false)
flow_instruction allowed size wide_second incoming pc i stack_store_register = do
  require_stack_access pc (destination i) i.offset (access_size i.opcode)
  require_initialized (incoming_at incoming pc) pc (source i)
  next ← propagate_next incoming size pc (incoming_at incoming pc)
  ok (next, false)
flow_instruction allowed size wide_second incoming pc i jump = do
  target ← jump_target size pc i.offset
  ensure (not (wide_at wide_second target)) (jump_into_wide_immediate pc)
  next ← propagate incoming size target (incoming_at incoming pc) pc
  ok (next, false)
flow_instruction allowed size wide_second incoming pc i jump_immediate = do
  require_initialized (incoming_at incoming pc) pc (destination i)
  next ← propagate_branch incoming wide_second size pc i.offset (incoming_at incoming pc)
  ok (next, false)
flow_instruction allowed size wide_second incoming pc i jump_register = do
  require_initialized (incoming_at incoming pc) pc (destination i)
  require_initialized (incoming_at incoming pc) pc (source i)
  next ← propagate_branch incoming wide_second size pc i.offset (incoming_at incoming pc)
  ok (next, false)
flow_instruction allowed size wide_second incoming pc i call = do
  ensure (contains allowed i.immediate) (invalid_helper pc i.immediate)
  next ← propagate_next incoming size pc (after_call (incoming_at incoming pc))
  ok (next, false)
flow_instruction allowed size wide_second incoming pc i exit = do
  require_initialized (incoming_at incoming pc) pc 0
  ok (incoming, true)
flow_instruction allowed size wide_second incoming pc i other = err (invalid_opcode pc i.opcode)

-- The second pass, from `pc` on: the instructions that nothing reaches are not looked at. Its
-- result tells whether an exit was seen.
unfoldable pub flow :
    List ℕ
    → ℕ
    → List Bool
    → List Instruction
    → ℕ
    → List RegisterSet
    → Bool
    → Result VerifyError Bool
unfolding is_unreached incoming_at wide_at classify flow_instruction
flow allowed size wide_second [] pc incoming saw_exit = ok saw_exit
flow allowed size wide_second (i ∷ rest) pc incoming saw_exit =
    elim (is_unreached (incoming_at incoming pc) || wide_at wide_second pc) [
      | true ↦ flow allowed size wide_second rest (pc + 1) incoming saw_exit
      | false ↦
          flow_instruction allowed size wide_second incoming pc i (classify i.opcode) >>= λ next.
          flow allowed size wide_second rest (pc + 1) next.0 (saw_exit || next.1)
    ]

abbrev pub first_incoming : List RegisterSet
first_incoming = set (replicate max_instructions unreached) 0 entry_state

-- A `VerifiedProgram` is the instructions that it borrows.
unfoldable pub verify : List Instruction → List ℕ → Result VerifyError (List Instruction)
unfolding scan flow
verify instructions allowed = do
  ensure (not (length instructions == 0)) empty_program
  ensure (leb (length instructions) max_instructions) program_too_large
  wide_second ← scan instructions 0 (replicate max_instructions false)
  saw_exit ← flow allowed (length instructions) wide_second instructions 0 first_incoming false
  ensure saw_exit missing_exit
  ok instructions
