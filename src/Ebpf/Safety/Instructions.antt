-- ===== src/Ebpf/Safety/Instructions.antt =====
-- ebpf/src/lib.rs: every class of instructions, accepted and executed.
use slopos.Ebpf.{
  Instruction, Class, wide_immediate, move_immediate, move_register, alu_immediate, alu_register,
  negate, stack_load, stack_store_immediate, stack_store_register, jump, jump_immediate,
  jump_register, call, exit, other,
}
use slopos.Ebpf.Verifier.{flow_instruction, RegisterSet}
use slopos.Ebpf.Machine.{HelperRegistry}
use slopos.Base.{ℕ, Bool, List}
use slopos.Ebpf.Safety.{Site, Sound}
use slopos.Ebpf.Safety.Arithmetic.{
  flow_wide_immediate, flow_move_immediate, flow_move_register, flow_alu_immediate,
  flow_alu_register, flow_negate,
}
use slopos.Ebpf.Safety.Memory.{
  flow_stack_load, flow_stack_store_immediate, flow_stack_store_register,
}
use slopos.Ebpf.Safety.Jumps.{
  flow_jump, flow_jump_immediate, flow_jump_register, flow_call, flow_exit,
}

module _ {S : Type 0} (registry : HelperRegistry S) (allowed : List ℕ) (size : ℕ) (wide : List Bool)
    (program : List Instruction) (incoming : List RegisterSet) (pc : ℕ) (i : Instruction)
    (site : Site size wide program incoming pc i) where
  pub flow_Sound : (c : Class) → Sound registry allowed size wide program incoming pc i c
  unfolding Sound flow_instruction
  flow_Sound wide_immediate =
      flow_wide_immediate registry allowed size wide program incoming pc i site
  flow_Sound move_immediate =
      flow_move_immediate registry allowed size wide program incoming pc i site
  flow_Sound move_register =
      flow_move_register registry allowed size wide program incoming pc i site
  flow_Sound alu_immediate =
      flow_alu_immediate registry allowed size wide program incoming pc i site
  flow_Sound alu_register = flow_alu_register registry allowed size wide program incoming pc i site
  flow_Sound negate = flow_negate registry allowed size wide program incoming pc i site
  flow_Sound stack_load = flow_stack_load registry allowed size wide program incoming pc i site
  flow_Sound stack_store_immediate =
      flow_stack_store_immediate registry allowed size wide program incoming pc i site
  flow_Sound stack_store_register =
      flow_stack_store_register registry allowed size wide program incoming pc i site
  flow_Sound jump = flow_jump registry allowed size wide program incoming pc i site
  flow_Sound jump_immediate =
      flow_jump_immediate registry allowed size wide program incoming pc i site
  flow_Sound jump_register =
      flow_jump_register registry allowed size wide program incoming pc i site
  flow_Sound call = flow_call registry allowed size wide program incoming pc i site
  flow_Sound exit = flow_exit registry allowed size wide program incoming pc i site
  flow_Sound other = λ next e k h. absurd (cc)
