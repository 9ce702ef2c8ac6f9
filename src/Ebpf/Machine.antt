-- ===== src/Ebpf/Machine.antt =====
-- ebpf/src/lib.rs: `execute`, the interpreter of a verified filter. A u64 is a number below 2 ^ 64,
-- an i64 its bit pattern. An index out of bounds and an `unreachable!` arm panic.
use Prim.Native.Nat.{bit_and, bit_or, bit_xor}
use slopos.Base.{
  ℕ, zero, suc, ◌+◌, ◌-◌, ◌*◌, ◌/◌, ◌%◌, ◌^◌, ◌==◌, Bool, false, not, List, Option, some, none,
  Result, ok, err, ◌>>=◌, ok_or, if◌then◌else◌, ltb, leb, length, get_elem?, set, replicate,
  u64_mod,
}
use slopos.Ebpf.{
  Instruction, destination, source, max_instructions, register_count, stack_size, stack_start,
  access_size, Class, wide_immediate, move_immediate, move_register, alu_immediate, alu_register,
  negate, stack_load, stack_store_immediate, stack_store_register, jump, jump_immediate,
  jump_register, call, exit, other, classify,
}

pub data RuntimeError : Type 0 where
  division_by_zero invalid_stack_access : ℕ → RuntimeError
  invalid_helper : ℕ → ℕ → RuntimeError
  step_limit : RuntimeError

-- How a run ends: `Ok` of a value, `Err` or a panic.
pub data Stop : Type 0 where
  returned : ℕ → Stop
  failed : RuntimeError → Stop
  panicked : Stop

-- The trait HelperRegistry, with the state that `&mut self` changes.
pub record HelperRegistry (S : Type 0) : Type 0 where
  pub helper_call : S → ℕ → List ℕ → Option ℕ × S

-- NoHelpers
abbrev pub no_helpers : HelperRegistry (Unit {0})
no_helpers = record { helper_call = λ s helper registers. (none, s) }

pub record Machine (S : Type 0) : Type 0 where
  pub registers : List ℕ
  pub stack : List ℕ
  pub pc : ℕ
  pub helpers : S

-- `immediate as i64 as u64`
unfoldable pub sign_extend : ℕ → ℕ
sign_extend immediate = if ltb immediate (2 ^ 31) then immediate else immediate + (2 ^ 64 - 2 ^ 32)

-- `value as i64`, moved up by 2 ^ 63: it keeps the order of the signed numbers.
unfoldable pub signed_rank : ℕ → ℕ
signed_rank value = (value + 2 ^ 63) % u64_mod

-- `(value as i64 >> count) as u64`
unfoldable pub arithmetic_shift : ℕ → ℕ → ℕ
arithmetic_shift value count =
    if ltb value (2 ^ 63)
    then value / 2 ^ count
    else u64_mod - 1 - (u64_mod - 1 - value) / 2 ^ count

-- `offset as usize` sign-extends, and a release build's sum wraps around.
unfoldable pub branch_pc : ℕ → ℕ → ℕ
branch_pc pc offset =
    (pc + 1 + (if ltb offset 32768 then offset else offset + (2 ^ 64 - 2 ^ 16))) % u64_mod

unfoldable pub apply_alu : ℕ → ℕ → ℕ → ℕ → Result Stop ℕ
unfolding arithmetic_shift
apply_alu opcode value rhs pc =
    if bit_and opcode 0xf0 == 0x00
    then ok ((value + rhs) % u64_mod)
    else if bit_and opcode 0xf0 == 0x10
    then ok ((value + u64_mod - rhs) % u64_mod)
    else if bit_and opcode 0xf0 == 0x20
    then ok (value * rhs % u64_mod)
    else if bit_and opcode 0xf0 == 0x30
    then (if rhs == 0 then err (failed (division_by_zero pc)) else ok (value / rhs))
    else if bit_and opcode 0xf0 == 0x40
    then ok (bit_or value rhs)
    else if bit_and opcode 0xf0 == 0x50
    then ok (bit_and value rhs)
    else if bit_and opcode 0xf0 == 0x60
    then ok (value * 2 ^ (rhs % 64) % u64_mod)
    else if bit_and opcode 0xf0 == 0x70
    then ok (value / 2 ^ (rhs % 64))
    else if bit_and opcode 0xf0 == 0x90
    then (if rhs == 0 then err (failed (division_by_zero pc)) else ok (value % rhs))
    else if bit_and opcode 0xf0 == 0xa0
    then ok (bit_xor value rhs)
    else if bit_and opcode 0xf0 == 0xc0
    then ok (arithmetic_shift value (rhs % 64))
    else err panicked

unfoldable pub compare : ℕ → ℕ → ℕ → Bool
unfolding signed_rank
compare opcode lhs rhs =
    if bit_and opcode 0xf0 == 0x10
    then lhs == rhs
    else if bit_and opcode 0xf0 == 0x20
    then ltb rhs lhs
    else if bit_and opcode 0xf0 == 0x30
    then leb rhs lhs
    else if bit_and opcode 0xf0 == 0x40
    then not (bit_and lhs rhs == 0)
    else if bit_and opcode 0xf0 == 0x50
    then not (lhs == rhs)
    else if bit_and opcode 0xf0 == 0x60
    then ltb (signed_rank rhs) (signed_rank lhs)
    else if bit_and opcode 0xf0 == 0x70
    then leb (signed_rank rhs) (signed_rank lhs)
    else if bit_and opcode 0xf0 == 0xa0
    then ltb lhs rhs
    else if bit_and opcode 0xf0 == 0xb0
    then leb lhs rhs
    else if bit_and opcode 0xf0 == 0xc0
    then ltb (signed_rank lhs) (signed_rank rhs)
    else if bit_and opcode 0xf0 == 0xd0
    then leb (signed_rank lhs) (signed_rank rhs)
    else false

unfoldable pub stack_address : ℕ → ℕ → ℕ → Result Stop ℕ
unfolding stack_start
stack_address offset size pc = elim (stack_start offset) [
  | none ↦ err (failed (invalid_stack_access pc))
  | some start ↦
      if leb (start + size) stack_size then ok start else err (failed (invalid_stack_access pc))
]

-- The bytes stand in disjoint bits, the lowest first, so that `|=` adds them up.
unfoldable pub load_stack : List ℕ → ℕ → ℕ → Option ℕ
load_stack stack start zero = some 0
load_stack stack start (suc size) = elim (get_elem? stack start) [
  | none ↦ none
  | some byte ↦ elim (load_stack stack (start + 1) size) [
    | none ↦ none
    | some high ↦ some (byte + 256 * high)
  ]
]

unfoldable pub store_stack : List ℕ → ℕ → ℕ → ℕ → Option (List ℕ)
store_stack stack start zero value = some stack
store_stack stack start (suc size) value = elim (get_elem? stack start) [
  | none ↦ none
  | some old ↦ store_stack (set stack start (value % 256)) (start + 1) size (value / 256)
]

module _ {S : Type 0} where
  unfoldable pub read_register : Machine S → ℕ → Result Stop ℕ
  read_register m r = ok_or (get_elem? m.registers r) panicked

  unfoldable pub with_registers : Machine S → List ℕ → Machine S
  with_registers m registers = record {
    registers = registers;
    stack = m.stack;
    pc = m.pc;
    helpers = m.helpers;
  }

  unfoldable pub write_register : Machine S → ℕ → ℕ → Result Stop (Machine S)
  unfolding with_registers
  write_register m r value =
      if ltb r (length m.registers)
      then ok (with_registers m (set m.registers r value))
      else err panicked

  unfoldable pub with_stack : Machine S → List ℕ → Machine S
  with_stack m stack = record {
    registers = m.registers;
    stack = stack;
    pc = m.pc;
    helpers = m.helpers;
  }

  unfoldable pub at_pc : Machine S → ℕ → Machine S
  at_pc m pc = record { registers = m.registers; stack = m.stack; pc = pc; helpers = m.helpers }

  -- The machine with the state that a call leaves its helpers in
  unfoldable pub called : HelperRegistry S → Machine S → Instruction → Machine S
  called registry m i = record {
    registers = m.registers;
    stack = m.stack;
    pc = m.pc;
    helpers = (registry.helper_call m.helpers i.immediate m.registers).1;
  }

  -- One turn of the loop
  unfoldable pub step_instruction :
      HelperRegistry S
      → List Instruction
      → Machine S
      → Instruction
      → Class
      → Result Stop (Machine S)
  unfolding access_size read_register with_registers write_register with_stack at_pc called
      destination source sign_extend branch_pc apply_alu compare stack_address load_stack
      store_stack
  step_instruction registry program m i wide_immediate = do
    continuation ← ok_or (get_elem? program (m.pc + 1)) panicked
    next ← write_register m (destination i) (i.immediate + continuation.immediate * 2 ^ 32)
    ok (at_pc next (m.pc + 2))
  step_instruction registry program m i move_immediate = do
    next ← write_register m (destination i) (sign_extend i.immediate)
    ok (at_pc next (m.pc + 1))
  step_instruction registry program m i move_register = do
    value ← read_register m (source i)
    next ← write_register m (destination i) value
    ok (at_pc next (m.pc + 1))
  step_instruction registry program m i alu_immediate = do
    value ← read_register m (destination i)
    result ← apply_alu i.opcode value (sign_extend i.immediate) m.pc
    next ← write_register m (destination i) result
    ok (at_pc next (m.pc + 1))
  step_instruction registry program m i alu_register = do
    rhs ← read_register m (source i)
    value ← read_register m (destination i)
    result ← apply_alu i.opcode value rhs m.pc
    next ← write_register m (destination i) result
    ok (at_pc next (m.pc + 1))
  step_instruction registry program m i negate = do
    value ← read_register m (destination i)
    next ← write_register m (destination i) ((u64_mod - value) % u64_mod)
    ok (at_pc next (m.pc + 1))
  step_instruction registry program m i stack_load = do
    start ← stack_address i.offset (access_size i.opcode) m.pc
    value ← ok_or (load_stack m.stack start (access_size i.opcode)) panicked
    next ← write_register m (destination i) value
    ok (at_pc next (m.pc + 1))
  step_instruction registry program m i stack_store_immediate = do
    start ← stack_address i.offset (access_size i.opcode) m.pc
    stack ←
        ok_or (store_stack m.stack start (access_size i.opcode) (sign_extend i.immediate)) panicked
    ok (at_pc (with_stack m stack) (m.pc + 1))
  step_instruction registry program m i stack_store_register = do
    start ← stack_address i.offset (access_size i.opcode) m.pc
    value ← read_register m (source i)
    stack ← ok_or (store_stack m.stack start (access_size i.opcode) value) panicked
    ok (at_pc (with_stack m stack) (m.pc + 1))
  step_instruction registry program m i jump = ok (at_pc m (branch_pc m.pc i.offset))
  step_instruction registry program m i jump_immediate = do
    lhs ← read_register m (destination i)
    ok (
        at_pc m (
          if compare i.opcode lhs (sign_extend i.immediate)
          then branch_pc m.pc i.offset
          else m.pc + 1))
  step_instruction registry program m i jump_register = do
    lhs ← read_register m (destination i)
    rhs ← read_register m (source i)
    ok (at_pc m (if compare i.opcode lhs rhs then branch_pc m.pc i.offset else m.pc + 1))
  step_instruction registry program m i call = do
    value ←
        ok_or (registry.helper_call m.helpers i.immediate m.registers).0
          (failed (invalid_helper m.pc i.immediate))
    next ← write_register (called registry m i) 0 value
    ok (at_pc next (m.pc + 1))
  step_instruction registry program m i exit = do value ← read_register m 0; err (returned value)
  step_instruction registry program m i other = err panicked

  -- The state of the helpers where a turn stops the loop
  unfoldable pub helpers_after : HelperRegistry S → Machine S → Instruction → Class → S
  unfolding called
  helpers_after registry m i call = (called registry m i).helpers
  helpers_after registry m i c = m.helpers

  -- The loop, with the number of steps that are left: at 4096 steps it gives up.
  unfoldable pub run : HelperRegistry S → List Instruction → ℕ → Machine S → Stop × S
  unfolding classify step_instruction helpers_after
  run registry program zero m = (failed step_limit, m.helpers)
  run registry program (suc steps) m = elim (get_elem? program m.pc) [
    | none ↦ (failed step_limit, m.helpers)
    | some i ↦ elim (step_instruction registry program m i (classify i.opcode)) [
      | err stop ↦ (stop, helpers_after registry m i (classify i.opcode))
      | ok next ↦ run registry program steps next
    ]
  ]

  unfoldable pub start : S → ℕ → Machine S
  start s context = record {
    registers = set (set (replicate register_count 0) 1 context) 10 stack_size;
    stack = replicate stack_size 0;
    pc = 0;
    helpers = s;
  }

  unfoldable pub execute : HelperRegistry S → List Instruction → S → ℕ → Stop × S
  unfolding run start
  execute registry program s context = run registry program max_instructions (start s context)
