-- ===== src/Ebpf.antt =====
-- ebpf/src/lib.rs: the instructions of the packet filters that the kernel runs, and the tables of
-- opcodes. The verifier and the interpreter are child modules.
pub mod Verifier
pub mod Machine
pub mod Scan
pub mod Flow
pub mod Turns
pub mod Defensive
pub mod Safety
pub mod Written
pub mod Runs
pub mod Execution
pub mod Stack
pub mod Encoding
use Prim.Native.Nat.{bit_and}
use slopos.Base.{
  ℕ, ◌+◌, ◌*◌, ◌/◌, ◌%◌, ◌-◌, ◌==◌, Bool, List, [], ◌∷◌, Option, some, none, contains,
  if◌then◌else◌, ltb, leb, ◌||◌,
}

abbrev pub max_instructions : ℕ
max_instructions = 4096

abbrev pub stack_size : ℕ
stack_size = 512

abbrev pub register_count : ℕ
register_count = 11

-- The offset is the bit pattern of an i16, the immediate that of an i32.
pub record Instruction : Type 0 where
  pub opcode : ℕ
  pub registers : ℕ
  pub offset : ℕ
  pub immediate : ℕ

-- Instruction::new: the source fills the upper half of the byte, the destination the lower.
unfoldable pub new_instruction : ℕ → ℕ → ℕ → ℕ → ℕ → Instruction
new_instruction opcode destination source offset immediate = record {
  opcode = opcode;
  registers = source * 16 % 256 + destination % 16;
  offset = offset;
  immediate = immediate;
}

unfoldable pub destination : Instruction → ℕ
destination i = i.registers % 16

unfoldable pub source : Instruction → ℕ
source i = i.registers / 16

-- Instruction::decode, of eight bytes
unfoldable pub decode : ℕ → ℕ → ℕ → ℕ → ℕ → ℕ → ℕ → ℕ → Instruction
decode b0 b1 b2 b3 b4 b5 b6 b7 = record {
  opcode = b0;
  registers = b1;
  offset = b2 + 256 * b3;
  immediate = b4 + 256 * (b5 + 256 * (b6 + 256 * b7));
}

abbrev pub alu_immediates : List ℕ
alu_immediates = 0x07 ∷ 0x17 ∷ 0x27 ∷ 0x37 ∷ 0x47 ∷ 0x57 ∷ 0x67 ∷ 0x77 ∷ 0x97 ∷ 0xa7 ∷ 0xc7 ∷ []

abbrev pub alu_registers : List ℕ
alu_registers = 0x0f ∷ 0x1f ∷ 0x2f ∷ 0x3f ∷ 0x4f ∷ 0x5f ∷ 0x6f ∷ 0x7f ∷ 0x9f ∷ 0xaf ∷ 0xcf ∷ []

unfoldable pub is_alu_immediate : ℕ → Bool
is_alu_immediate opcode = contains alu_immediates opcode

unfoldable pub is_alu_register : ℕ → Bool
is_alu_register opcode = contains alu_registers opcode

unfoldable pub is_conditional_jump_immediate : ℕ → Bool
is_conditional_jump_immediate opcode =
    contains (0x15 ∷ 0x25 ∷ 0x35 ∷ 0x45 ∷ 0x55 ∷ 0x65 ∷ 0x75 ∷ 0xa5 ∷ 0xb5 ∷ 0xc5 ∷ 0xd5 ∷ [])
      opcode

unfoldable pub is_conditional_jump_register : ℕ → Bool
is_conditional_jump_register opcode =
    contains (0x1d ∷ 0x2d ∷ 0x3d ∷ 0x4d ∷ 0x5d ∷ 0x6d ∷ 0x7d ∷ 0xad ∷ 0xbd ∷ 0xcd ∷ 0xdd ∷ [])
      opcode

unfoldable pub is_stack_load : ℕ → Bool
is_stack_load opcode = contains (0x61 ∷ 0x69 ∷ 0x71 ∷ 0x79 ∷ []) opcode

unfoldable pub is_stack_store_immediate : ℕ → Bool
is_stack_store_immediate opcode = contains (0x62 ∷ 0x6a ∷ 0x72 ∷ 0x7a ∷ []) opcode

unfoldable pub is_stack_store_register : ℕ → Bool
is_stack_store_register opcode = contains (0x63 ∷ 0x6b ∷ 0x73 ∷ 0x7b ∷ []) opcode

unfoldable pub is_supported_opcode : ℕ → Bool
unfolding is_alu_immediate is_alu_register is_conditional_jump_immediate
    is_conditional_jump_register is_stack_load is_stack_store_immediate is_stack_store_register
is_supported_opcode opcode =
    (opcode == 0x18)
    || ((opcode == 0xb7)
        || ((opcode == 0xbf)
            || ((opcode == 0x87)
                || ((opcode == 0x05)
                    || ((opcode == 0x85)
                        || ((opcode == 0x95)
                            || (is_alu_immediate opcode
                                || (is_alu_register opcode
                                    || (is_conditional_jump_immediate opcode
                                        || (is_conditional_jump_register opcode
                                            || (is_stack_load opcode
                                                || (is_stack_store_immediate opcode
                                                    || is_stack_store_register opcode))))))))))))

-- The arms of the `match instruction.opcode` that the verifier and the interpreter share, in their
-- order; the last is the wildcard.
pub data Class : Type 0 where
  wide_immediate move_immediate move_register alu_immediate alu_register negate : Class
  stack_load stack_store_immediate stack_store_register : Class
  jump jump_immediate jump_register call exit other : Class

unfoldable pub classify : ℕ → Class
unfolding is_alu_immediate is_alu_register is_conditional_jump_immediate
    is_conditional_jump_register is_stack_load is_stack_store_immediate is_stack_store_register
classify opcode =
    if opcode == 0x18
    then wide_immediate
    else if opcode == 0xb7
    then move_immediate
    else if opcode == 0xbf
    then move_register
    else if is_alu_immediate opcode
    then alu_immediate
    else if is_alu_register opcode
    then alu_register
    else if opcode == 0x87
    then negate
    else if is_stack_load opcode
    then stack_load
    else if is_stack_store_immediate opcode
    then stack_store_immediate
    else if is_stack_store_register opcode
    then stack_store_register
    else if opcode == 0x05
    then jump
    else if is_conditional_jump_immediate opcode
    then jump_immediate
    else if is_conditional_jump_register opcode
    then jump_register
    else if opcode == 0x85
    then call
    else if opcode == 0x95
    then exit
    else other

unfoldable pub access_size : ℕ → ℕ
access_size opcode =
    if bit_and opcode 0x18 == 0x00
    then 4
    else if bit_and opcode 0x18 == 0x08
    then 2
    else if bit_and opcode 0x18 == 0x10
    then 1
    else if bit_and opcode 0x18 == 0x18
    then 8
    else 0

-- `STACK_SIZE as isize + offset as isize`, where that is not negative
unfoldable pub stack_start : ℕ → Option ℕ
stack_start offset =
    if ltb offset 32768
    then some (stack_size + offset)
    else if leb (65536 - offset) stack_size
    then some (stack_size - (65536 - offset))
    else none
