-- ===== src/Ebpf/Encoding.antt =====
-- ebpf/src/lib.rs: the encoding of instructions, and the opcodes that the two passes know.
use slopos.Base.{ℕ, ◌+◌, ◌*◌, ◌/◌, ◌%◌, ◌^◌, ◌<◌, ◌≡◌, ◌≢◌, ◌↔◌, true, arith}
use slopos.Ebpf.{new_instruction, destination, source, decode, is_supported_opcode, other, classify}

pub decode-new_instruction :
    (opcode dst src offset immediate : ℕ)
    → dst < 16
    → src < 16
    → offset < 2 ^ 16
    → immediate < 2 ^ 32
    → (decode opcode
          (src * 16 + dst)
          (offset % 256)
          (offset / 256)
          (immediate % 256)
          (immediate / 256 % 256)
          (immediate / 65536 % 256)
          (immediate / 16777216)
        ≡ new_instruction opcode dst src offset immediate)
      × (destination (new_instruction opcode dst src offset immediate) ≡ dst)
      × (source (new_instruction opcode dst src offset immediate) ≡ src)
unfolding decode new_instruction destination source
decode-new_instruction opcode dst src offset immediate d s o i =
    (ground arith, omega arith, omega arith)

-- The table of supported opcodes of the first pass lists exactly the opcodes that have an arm in
-- the verifier and the interpreter.
pub is_supported_opcode-classify :
    (opcode : ℕ) → (is_supported_opcode opcode ≡ true) ↔ (classify opcode ≢ other)
unfolding is_supported_opcode classify
is_supported_opcode-classify opcode = ground arith
