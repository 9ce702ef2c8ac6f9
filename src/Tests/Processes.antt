-- ===== src/Tests/Processes.antt =====
-- The process table of crates/process/src/lib.rs.
use slopos.Process.Table.{ProcessTable, new, spawn, reap, slot, slot_mut, mark_running, exit}
use slopos.Base.{◌≡◌, refl, [], ◌∷◌, some, none, arith, find}
use slopos.Process.{ProcessImage}
use slopos.Process.Calls.{perform, target, Effect, spawns, runs, exits, reaps}
use slopos.Process.Effects.{perform-Effect}
use slopos.Process.Invariant.{IsValid, new-IsValid, perform-IsValid}
use slopos.Process.Isolation.{perform_elsewhere, run, run-IsValid, run_gone}
use slopos.Process.LifeCycle.{finish, move, Moved, move-Moved}
use slopos.Process.Birth.{Spawned, spawn-Spawned}
use slopos.Process.Burial.{Reaped, reap-Reaped}
use slopos.Process.Scheduler.{next_schedulable_after}
use slopos.Process.Fairness.{RoundRobin, next_schedulable_after-RoundRobin}
use slopos.Process.Ownership.{Delegated, on_files-Delegated}
use slopos.Process.Files.{on_files}
use slopos.Vfs.Windows

abbrev program : ProcessImage
program = record {
  address_space_root = 8192;
  entry = 65536;
  stack_pointer = 200000;
  stack_top = 200000;
  user_memory_start = 65536;
  user_memory_end = 131072;
}

-- Two processes, the second a child of the first, which runs.
abbrev family : ProcessTable
family = run (new 3 2) (spawns none program ∷ runs 1 ∷ spawns (some 1) program ∷ [])

family-IsValid : IsValid family
family-IsValid =
    run-IsValid (new 3 2) (spawns none program ∷ runs 1 ∷ spawns (some 1) program ∷ [])
      (new-IsValid 3 2)

-- The child has run, exited and been reaped.
abbrev bereaved : ProcessTable
bereaved = run family (runs 2 ∷ exits 2 7 ∷ reaps 2 ∷ [])

bereaved-IsValid : IsValid bereaved
bereaved-IsValid = run-IsValid family (runs 2 ∷ exits 2 7 ∷ reaps 2 ∷ []) family-IsValid

child_gone : slot bereaved 2 ≡ none
unfolding slot slot_mut run perform new spawn reap mark_running exit find
child_gone = refl

-- The child has exited and waits for its parent.
abbrev waiting : ProcessTable
waiting = run family (runs 2 ∷ exits 2 7 ∷ [])

waiting-IsValid : IsValid waiting
waiting-IsValid = run-IsValid family (runs 2 ∷ exits 2 7 ∷ []) family-IsValid

move-Moved_example : Moved family 1 (finish 3) (move family 1 (finish 3))
move-Moved_example = move-Moved family 1 (finish 3) family-IsValid

perform-Effect_example : Effect family 1 (perform family (exits 1 3))
unfolding target
perform-Effect_example = perform-Effect family (exits 1 3)

perform-IsValid_example : IsValid (perform bereaved (spawns (some 1) program))
perform-IsValid_example = perform-IsValid bereaved (spawns (some 1) program) bereaved-IsValid

perform_elsewhere_example : slot (perform family (exits 1 3)) 2 ≡ slot family 2
unfolding target
perform_elsewhere_example =
    perform_elsewhere family (exits 1 3) 2 family-IsValid (λ e. absurd (omega arith))

run_gone_example : slot (run bereaved (spawns none program ∷ runs 3 ∷ [])) 2 ≡ none
unfolding run perform new spawn reap mark_running exit find
run_gone_example =
    run_gone bereaved (spawns none program ∷ runs 3 ∷ []) 2 bereaved-IsValid (omega arith)
      child_gone

spawn-Spawned_example : Spawned family (some 2) program (spawn family (some 2) program)
spawn-Spawned_example = spawn-Spawned family (some 2) program family-IsValid

reap-Reaped_example : Reaped waiting 2 (reap waiting 2)
reap-Reaped_example = reap-Reaped waiting 2 waiting-IsValid

next_schedulable_after-RoundRobin_example : RoundRobin family 2 (next_schedulable_after family 2)
next_schedulable_after-RoundRobin_example = next_schedulable_after-RoundRobin family 2

on_files-Delegated_example :
    Delegated family 1 (λ ds. Windows.close ds 3) (on_files family 1 (λ ds. Windows.close ds 3))
on_files-Delegated_example = on_files-Delegated family 1 (λ ds. Windows.close ds 3) family-IsValid
