-- ===== src/Tests/Filters.antt =====
-- ebpf/src/lib.rs: runs of the unit tests' filters, and the theorems at a filter that loads a wide
-- immediate, calls a helper, goes through the stack and branches.
use slopos.Ebpf.Machine.{
  execute, no_helpers, returned, failed, division_by_zero, HelperRegistry, run, start, load_stack,
  store_stack, step_limit,
}
use slopos.Base.{
  ℕ, List, [], ◌∷◌, ◌≡◌, ◌+◌, refl, ok, err, some, none, true, ◌==◌, if◌then◌else◌, length,
  get_elem?, ◌<◌, ◌≤◌, ◌⊎◌, ◌↔◌, ◌≢◌, ◌%◌, ◌^◌,
}
use slopos.Ebpf.{
  max_instructions, is_supported_opcode, classify, other, Instruction, new_instruction,
}
use slopos.Ebpf.Safety.{Permitted}
use slopos.Ebpf.Defensive.{run_defensive, at_entry}
use slopos.Ebpf.Execution.{execute-Permitted, execute-run_defensive, execute-run}
use slopos.Ebpf.Stack.{stack_round_trip}
use slopos.Ebpf.Encoding.{is_supported_opcode-classify}
use slopos.Ebpf.Verifier.{
  verify, uninitialized_register, backward_jump, stack_out_of_bounds, invalid_wide_immediate,
}

abbrev round_trip : List Instruction
unfolding new_instruction
round_trip =
    new_instruction 0xb7 2 0 0 20
    ∷ new_instruction 0x07 2 0 0 22
    ∷ new_instruction 0x7b 10 2 0xfff8 0
    ∷ new_instruction 0x79 0 10 0xfff8 0
    ∷ new_instruction 0x95 0 0 0 0
    ∷ []

accepts_round_trip : verify round_trip [] ≡ ok round_trip
unfolding verify round_trip
accepts_round_trip = refl

runs_round_trip : execute no_helpers round_trip tt 0 ≡ (returned 42, tt)
unfolding execute round_trip
runs_round_trip = refl

refuses_unwritten :
    verify (new_instruction 0xbf 0 2 0 0 ∷ new_instruction 0x95 0 0 0 0 ∷ []) []
    ≡ err (uninitialized_register 0 2)
unfolding verify new_instruction
refuses_unwritten = refl

refuses_loop :
    verify
      (new_instruction 0xb7 0 0 0 0
        ∷ new_instruction 0x05 0 0 0xffff 0
        ∷ new_instruction 0x95 0 0 0 0
        ∷ [])
      []
    ≡ err (backward_jump 1)
unfolding verify new_instruction
refuses_loop = refl

refuses_stack_overrun :
    verify (new_instruction 0x7a 10 0 0xfdf8 1 ∷ new_instruction 0x95 0 0 0 0 ∷ []) []
    ≡ err (stack_out_of_bounds 0)
unfolding verify new_instruction
refuses_stack_overrun = refl

refuses_torn_immediate :
    verify
      (new_instruction 0x18 0 0 0 42
        ∷ new_instruction 0xb7 0 0 0 0
        ∷ new_instruction 0x95 0 0 0 0
        ∷ [])
      []
    ≡ err (invalid_wide_immediate 0)
unfolding verify new_instruction
refuses_torn_immediate = refl

divides : List Instruction
unfolding new_instruction
divides =
    new_instruction 0xb7 0 0 0 42 ∷ new_instruction 0x37 0 0 0 0 ∷ new_instruction 0x95 0 0 0 0 ∷ []

runs_division : execute no_helpers divides tt 0 ≡ (failed (division_by_zero 1), tt)
unfolding execute divides
runs_division = refl

-- The helper of number 7 answers 42 and counts its calls.
abbrev answers : HelperRegistry ℕ
answers = record {
  helper_call = λ s helper registers. if helper == 7 then (some 42, s + 1) else (none, s);
}

abbrev classifier : List Instruction
unfolding new_instruction
classifier =
    new_instruction 0x18 6 0 0 1
    ∷ new_instruction 0 0 0 0 0
    ∷ new_instruction 0x85 0 0 0 7
    ∷ new_instruction 0x7b 10 0 0xfff8 0
    ∷ new_instruction 0x15 6 0 1 1
    ∷ new_instruction 0xb7 0 0 0 0
    ∷ new_instruction 0x71 0 10 0xfff8 0
    ∷ new_instruction 0x95 0 0 0 0
    ∷ []

accepts_classifier : verify classifier (7 ∷ []) ≡ ok classifier
unfolding verify classifier
accepts_classifier = refl

runs_classifier : execute answers classifier 0 0 ≡ (returned 42, 1)
unfolding execute classifier
runs_classifier = refl

execute-Permitted_example : Permitted answers (7 ∷ []) (execute answers classifier 0 0).0
execute-Permitted_example =
    execute-Permitted answers classifier classifier (7 ∷ []) 0 0 accepts_classifier

execute-run_defensive_example :
    run_defensive answers classifier max_instructions at_entry (start 0 0)
    ≡ some (execute answers classifier 0 0)
execute-run_defensive_example =
    execute-run_defensive answers classifier classifier (7 ∷ []) 0 0 accepts_classifier

execute-run_example :
    ((run answers classifier (length classifier) (start 0 0)).0 ≢ failed step_limit)
    × (execute answers classifier 0 0 ≡ run answers classifier (length classifier) (start 0 0))
execute-run_example = execute-run answers classifier classifier (7 ∷ []) 0 0 accepts_classifier

abbrev scratch : List ℕ
scratch = 1 ∷ 2 ∷ 3 ∷ 4 ∷ []

stores_word : store_stack scratch 1 2 0x561234 ≡ some (1 ∷ 0x34 ∷ 0x12 ∷ 4 ∷ [])
unfolding store_stack
stores_word = refl

stack_round_trip_example :
    (load_stack (1 ∷ 0x34 ∷ 0x12 ∷ 4 ∷ []) 1 2 ≡ some (0x561234 % 256 ^ 2))
    × ((j : ℕ)
        → (j < 1) ⊎ (1 + 2 ≤ j)
        → get_elem? (1 ∷ 0x34 ∷ 0x12 ∷ 4 ∷ []) j ≡ get_elem? scratch j)
stack_round_trip_example =
    stack_round_trip scratch (1 ∷ 0x34 ∷ 0x12 ∷ 4 ∷ []) 1 2 0x561234 stores_word

is_supported_opcode-classify_example : (is_supported_opcode 0x85 ≡ true) ↔ (classify 0x85 ≢ other)
is_supported_opcode-classify_example = is_supported_opcode-classify 0x85
