-- ===== src/Ebpf/Execution.antt =====
-- ebpf/src/lib.rs: `execute` on a program that `verify` lets through.
use slopos.Ebpf.Safety.{Permitted, divides_by_zero, refuses, returns}
use slopos.Ebpf.Verifier.{
  wide_at, incoming_at, program_too_large, first_incoming, empty_program, missing_exit, verify,
  scan, entry_state, unreached, flow,
}
use slopos.Base.{
  ℕ, zero, suc, ◌≤◌, ◌≡◌, ◌≢◌, ◌==◌, inl, inr, refl, ◌∙◌, ap, false, not, List, some, ok,
  ok_of_bind, ok_of_ensure, length, get_elem?, Result-cases, Option-cases, arith, subst,
  ok-injective, length-replicate, replicate, set, leb,
}
use slopos.Ebpf.Machine.{
  Machine, HelperRegistry, Stop, failed, step_instruction, execute, start, step_limit, run,
}
use slopos.Ebpf.Scan.{scan_before, scan-Placed, Placed}
use slopos.Ebpf.Flow.{first-States, first-IsState}
use slopos.Ebpf.{Instruction, max_instructions, classify}
use slopos.Ebpf.Turns.{start-Shaped}
use slopos.Ebpf.Written.{Below}
use slopos.Ebpf.Defensive.{run_defensive, at_entry}
use slopos.Ebpf.Runs.{flow-Safe}

wide_at-replicate : (n k : ℕ) → wide_at (replicate n false) k ≡ false
unfolding wide_at
wide_at-replicate zero k = refl
wide_at-replicate (suc n) zero = refl
wide_at-replicate (suc n) (suc k) = wide_at-replicate n k

first-Below :
    (n : ℕ) → Below (incoming_at (set (replicate (suc n) unreached) 0 entry_state) 0) entry_state
unfolding incoming_at
first-Below n = record { widths = refl; within = λ r h. h }

-- What `verify` says of a program, of every run that has at least as many turns as the program has
-- instructions.
verify-Safe :
    {S : Type 0} (registry : HelperRegistry S) (instructions program : List Instruction)
    (allowed : List ℕ) (s : S) (context steps : ℕ)
    → verify instructions allowed ≡ ok program
    → length program ≤ steps
    → (length program ≤ max_instructions)
      × Permitted registry allowed (run registry program steps (start s context)).0
      × (run_defensive registry program steps at_entry (start s context)
          ≡ some (run registry program steps (start s context)))
unfolding verify start
verify-Safe registry instructions program allowed s context steps h enough =
    let a = ok_of_ensure (not (length instructions == 0)) empty_program _ h in
    let b = ok_of_ensure (leb (length instructions) max_instructions) program_too_large _ a.1 in
    let (wide, scanned, c) =
      ok_of_bind (scan instructions 0 (replicate max_instructions false)) _ b.1 in
    let (seen, flowed, d) =
      ok_of_bind (flow allowed (length instructions) wide instructions 0 first_incoming false) _
        c in
    let e = ok_of_ensure seen missing_exit _ d in
    let small : length instructions ≤ max_instructions = ground (arith, b.0) in
    let placed : (q : ℕ) (i : Instruction)
        → get_elem? instructions q ≡ some i
        → wide_at wide q ≡ false
        → Placed instructions wide q q i =
      λ q i at single.
        scan-Placed instructions 0 q q (replicate max_instructions false) wide i scanned
          (omega (arith, length-replicate max_instructions false))
          (λ k l. wide_at-replicate max_instructions k) (omega arith) at single in
    let clear : wide_at wide 0 ≡ false =
      scan_before instructions 0 0 (replicate max_instructions false) wide scanned (omega arith)
      ∙ wide_at-replicate max_instructions 0 in
    let same : instructions ≡ program = ok-injective e.1 in
    let safe =
      flow-Safe registry allowed wide instructions small placed instructions 0 first_incoming false
        seen flowed (λ j. ap (get_elem? instructions) (omega arith)) (omega arith) first-States
        steps at_entry (start s context) (start-Shaped s context) (omega arith)
        (ground (arith, a.0)) (omega (arith, ap length same)) first-IsState clear
        (first-Below 4095) in
    subst
      (λ (p : List Instruction).
        (length p ≤ max_instructions)
        × Permitted registry allowed (run registry p steps (start s context)).0
        × (run_defensive registry p steps at_entry (start s context)
            ≡ some (run registry p steps (start s context))))
      same (small, safe.permitted, safe.defensive)

-- A program that `verify` accepts, run by `execute` with any registry of helpers and any context,
-- never panics, makes no access outside its stack and does not run out of steps: it returns a
-- value, divides by zero, or calls a helper of the allow list that the registry turns down.
pub execute-Permitted :
    {S : Type 0} (registry : HelperRegistry S) (instructions program : List Instruction)
    (allowed : List ℕ) (s : S) (context : ℕ)
    → verify instructions allowed ≡ ok program
    → Permitted registry allowed (execute registry program s context).0
unfolding execute
execute-Permitted registry instructions program allowed s context h =
    let a =
      verify-Safe registry instructions program allowed s context (length program) h
        (omega arith) in
    (verify-Safe registry instructions program allowed s context max_instructions h a.0).1

-- On a program that `verify` accepts, `execute` ends as the reference interpreter does, which
-- stops at the first instruction that reads a register not written before. Written are at first
-- the context and the frame pointer, and after a call the result, registers 6 and above as before,
-- and none of the argument registers 1 to 5.
pub execute-run_defensive :
    {S : Type 0} (registry : HelperRegistry S) (instructions program : List Instruction)
    (allowed : List ℕ) (s : S) (context : ℕ)
    → verify instructions allowed ≡ ok program
    → run_defensive registry program max_instructions at_entry (start s context)
      ≡ some (execute registry program s context)
unfolding execute
execute-run_defensive registry instructions program allowed s context h =
    let a =
      verify-Safe registry instructions program allowed s context (length program) h
        (omega arith) in
    (verify-Safe registry instructions program allowed s context max_instructions h a.0).2

-- A run that has come to an end is not changed by steps that are left over.
run_stable :
    {S : Type 0} (registry : HelperRegistry S) (program : List Instruction) (steps more : ℕ)
    (m : Machine S)
    → steps ≤ more
    → (run registry program steps m).0 ≢ failed step_limit
    → run registry program more m ≡ run registry program steps m
unfolding run
run_stable registry program zero more m le h = absurd (h refl)
run_stable registry program (suc steps) zero m le h = absurd (omega arith)
run_stable {S = S} registry program (suc steps) (suc more) m le h =
    elim (Option-cases (get_elem? program m.pc)) [
      | inl f ↦ rw (run, f) refl
      | inr (i, f) ↦
          elim (Result-cases (step_instruction registry program m i (classify i.opcode))) [
            | inr (s, g) ↦ rw (run, f, g) refl
            | inl (n, g) ↦
                let same : run registry program (suc steps) m ≡ run registry program steps n =
                  rw (run, f, g) refl in
                rw (run, f, g)
                  (run_stable registry program steps more n (omega arith)
                    (λ z. h (ap (λ (r : Stop × S). r.0) same ∙ z)))
          ]
    ]

not_step_limit :
    {S : Type 0} (registry : HelperRegistry S) (allowed : List ℕ) {stop : Stop}
    → Permitted registry allowed stop
    → stop ≢ failed step_limit
not_step_limit registry allowed (returns value) h = cc
not_step_limit registry allowed (divides_by_zero pc) h = cc
not_step_limit registry allowed (refuses pc helper s registers a r) h = cc

-- A program that `verify` accepts comes to its end within as many turns of the loop as it has
-- instructions: that many turns do not end for lack of steps, and `execute` gives what they give.
pub execute-run :
    {S : Type 0} (registry : HelperRegistry S) (instructions program : List Instruction)
    (allowed : List ℕ) (s : S) (context : ℕ)
    → verify instructions allowed ≡ ok program
    → ((run registry program (length program) (start s context)).0 ≢ failed step_limit)
      × (execute registry program s context
          ≡ run registry program (length program) (start s context))
unfolding execute
execute-run registry instructions program allowed s context h =
    let a =
      verify-Safe registry instructions program allowed s context (length program) h
        (omega arith) in
    let ends = not_step_limit registry allowed a.1 in
    (ends, run_stable registry program (length program) max_instructions (start s context) a.0 ends)
