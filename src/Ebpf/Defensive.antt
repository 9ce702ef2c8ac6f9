-- ===== src/Ebpf/Defensive.antt =====
-- ebpf/src/lib.rs: a reference interpreter, which also keeps the set of the registers that the run
-- has written so far and gives up at the first instruction that reads another one. A call overwrites
-- the argument registers 1 to 5 with nothing that may be relied on.
use slopos.Base.{
  ℕ, zero, suc, Bool, true, false, ◌&&◌, List, [], ◌∷◌, Option, some, none, ok, err, get_elem?,
  replicate, length, drop, ◌++◌, take, set,
}
use slopos.Ebpf.{
  Instruction, destination, source, Class, wide_immediate, move_immediate, move_register,
  alu_immediate, alu_register, negate, stack_load, stack_store_register, jump_immediate,
  jump_register, call, exit, classify,
}
use slopos.Ebpf.Machine.{
  Machine, HelperRegistry, Stop, failed, step_limit, step_instruction, helpers_after,
}

-- The registers whose values an instruction reads
unfoldable pub reads : Class → Instruction → List ℕ
unfolding destination source
reads move_register i = source i ∷ []
reads alu_immediate i = destination i ∷ []
reads alu_register i = destination i ∷ source i ∷ []
reads negate i = destination i ∷ []
reads stack_store_register i = source i ∷ []
reads jump_immediate i = destination i ∷ []
reads jump_register i = destination i ∷ source i ∷ []
reads exit i = 0 ∷ []
reads c i = []

-- The bit of each register, from 0 on: at the start, the context in 1 and the frame pointer in 10.
abbrev pub at_entry : List Bool
at_entry =
    false
    ∷ true
    ∷ false
    ∷ false
    ∷ false
    ∷ false
    ∷ false
    ∷ false
    ∷ false
    ∷ false
    ∷ true
    ∷ replicate 5 false

-- After a call, 0 has the result and 1 to 5 have nothing.
unfoldable pub after_helper : List Bool → List Bool
after_helper written = take (length written) (true ∷ (replicate 5 false ++ drop 6 written))

unfoldable pub is_written : List Bool → ℕ → Bool
is_written [] register = false
is_written (w ∷ ws) zero = w
is_written (w ∷ ws) (suc register) = is_written ws register

unfoldable pub written_after : Class → Instruction → List Bool → List Bool
unfolding destination after_helper
written_after wide_immediate i written = set written (destination i) true
written_after move_immediate i written = set written (destination i) true
written_after move_register i written = set written (destination i) true
written_after alu_immediate i written = set written (destination i) true
written_after alu_register i written = set written (destination i) true
written_after stack_load i written = set written (destination i) true
written_after call i written = after_helper written
written_after c i written = written

unfoldable pub has_all : List Bool → List ℕ → Bool
unfolding is_written
has_all written [] = true
has_all written (r ∷ rs) = is_written written r && has_all written rs

module _ {S : Type 0} where
  -- `none` is the read of a register that was not written.
  unfoldable pub run_defensive :
      HelperRegistry S → List Instruction → ℕ → List Bool → Machine S → Option (Stop × S)
  unfolding classify reads written_after has_all step_instruction helpers_after
  run_defensive registry program zero written m = some (failed step_limit, m.helpers)
  run_defensive registry program (suc steps) written m = elim (get_elem? program m.pc) [
    | none ↦ some (failed step_limit, m.helpers)
    | some i ↦ elim (has_all written (reads (classify i.opcode) i)) [
      | false ↦ none
      | true ↦ elim (step_instruction registry program m i (classify i.opcode)) [
        | err stop ↦ some (stop, helpers_after registry m i (classify i.opcode))
        | ok next ↦
            run_defensive registry program steps (written_after (classify i.opcode) i written) next
      ]
    ]
  ]
