-- ===== src/Process/Isolation.antt =====
-- One process at a time: what a call leaves of the processes that it is not about, and the use of
-- process numbers over a run.
use slopos.Base.{
  ℕ, ◌≤◌, ◌<◌, ◌≡◌, ◌≢◌, refl, false, some, none, List, [], ◌∷◌, get_elem?, arith, inl, inr,
  Option-cases, Bool-cases, find-none, find, ◌==◌, ◌∙◌,
}
use slopos.Process.Table.{
  ProcessSlot, ProcessTable, is_process, slot, slot_mut, empty_slot, new_slot,
}
use slopos.Process.Table.Lookup.{lookup-set}
use slopos.Process.Calls.{Call, perform, target, Effect, stays, changes, adds, removes}
use slopos.Process.Effects.{perform-Effect}
use slopos.Process.Invariant.{IsValid, perform-IsValid, Effect-IsValid}

Effect-elsewhere :
    (t : ProcessTable) (pid q : ℕ) (t' : ProcessTable)
    → IsValid t
    → IsValid t'
    → Effect t pid t'
    → q ≢ pid
    → slot t' q ≡ slot t q
unfolding slot slot_mut new_slot empty_slot
Effect-elsewhere t pid q _ v w stays other = refl
Effect-elsewhere t pid q _ v w (changes i old new at p c) other =
    ground (arith, lookup-set t.slots i old new v.unique at q w.unique)
Effect-elsewhere t pid q _ v w (adds i old parent image at free fresh fits valid lives) other =
    ground (arith, lookup-set t.slots i old (new_slot t parent image) v.unique at q w.unique)
Effect-elsewhere t pid q _ v w (removes i old at p e) other =
    ground (arith, lookup-set t.slots i old (empty_slot t.fd_capacity) v.unique at q w.unique)

-- A call on a valid table leaves every process that it is not about as it was, its descriptor
-- table included.
pub perform_elsewhere :
    (t : ProcessTable) (call : Call) (q : ℕ)
    → IsValid t
    → q ≢ target t call
    → slot (perform t call) q ≡ slot t q
perform_elsewhere t call q v other =
    let e = perform-Effect t call in
    Effect-elsewhere t (target t call) q (perform t call) v
      (Effect-IsValid t (target t call) (perform t call) v e) e other

unfoldable pub run : ProcessTable → List Call → ProcessTable
run t [] = t
run t (call ∷ calls) = run (perform t call) calls

pub run-IsValid : (t : ProcessTable) (calls : List Call) → IsValid t → IsValid (run t calls)
unfolding run
run-IsValid t [] v = v
run-IsValid t (call ∷ calls) v = run-IsValid (perform t call) calls (perform-IsValid t call v)

perform-next_pid : (t : ProcessTable) (call : Call) → t.next_pid ≤ (perform t call).next_pid
perform-next_pid t call = grows (perform t call) (perform-Effect t call)
  where
    grows : (t' : ProcessTable) → Effect t (target t call) t' → t.next_pid ≤ t'.next_pid
    grows _ stays = omega arith
    grows _ (changes i old new at p c) = omega arith
    grows _ (adds i old parent image at free fresh fits valid lives) = omega arith
    grows _ (removes i old at p e) = omega arith

not_process :
    (t : ProcessTable) (q i : ℕ) (s : ProcessSlot)
    → slot t q ≡ none
    → get_elem? t.slots i ≡ some s
    → is_process q s ≡ false
unfolding slot slot_mut
not_process t q i s gone at = elim (Option-cases (find (is_process q) t.slots)) [
  | inl e ↦ find-none (is_process q) t.slots i s e at
  | inr ((j, a), e) ↦ absurd (ground arith)
]

-- A number that is not in use and was handed out is not in use after a call.
perform_gone :
    (t : ProcessTable) (call : Call) (q : ℕ)
    → IsValid t
    → q < t.next_pid
    → slot t q ≡ none
    → slot (perform t call) q ≡ none
unfolding slot slot_mut
perform_gone t call q v old gone = elim (Bool-cases (q == target t call)) [
  | inr other ↦ perform_elsewhere t call q v (λ e. absurd (ground arith)) ∙ gone
  | inl same ↦ absent (target t call) (perform t call) (ground arith) (perform-Effect t call)
]
  where
    absent : (pid : ℕ) (t' : ProcessTable) → q ≡ pid → Effect t pid t' → slot t' q ≡ none
    absent pid _ same stays = gone
    absent pid _ same (changes i before new at p c) =
        absurd (ground (arith, not_process t q i before gone at))
    absent pid _ same (adds i before parent image at free fresh fits valid lives) =
        absurd (omega arith)
    absent pid _ same (removes i before at p e) =
        absurd (ground (arith, not_process t q i before gone at))

-- From a valid table, a process number that was handed out and is not in use stays out of use
-- through any sequence of calls.
pub run_gone :
    (t : ProcessTable) (calls : List Call) (q : ℕ)
    → IsValid t
    → q < t.next_pid
    → slot t q ≡ none
    → slot (run t calls) q ≡ none
unfolding run
run_gone t [] q v old gone = gone
run_gone t (call ∷ calls) q v old gone =
    run_gone (perform t call) calls q (perform-IsValid t call v)
      (omega (arith, perform-next_pid t call)) (perform_gone t call q v old gone)
