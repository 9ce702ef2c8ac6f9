-- ===== src/Process/Ownership.antt =====
-- The file methods of the process table: who may use a descriptor table, and what reaches it.
use slopos.Base.{
  ℕ, ◌≡◌, refl, not, some, none, set, arith, inl, inr, Option-cases, Bool-cases, Result, err,
  map_err, ◌≢◌,
}
use slopos.Vfs.{VfsError}
use slopos.Vfs.Descriptors.{FileDescriptorTable}
use slopos.Process.{exited, ProcessError, not_found, invalid_state, vfs}
use slopos.Process.Table.{ProcessSlot, ProcessTable, is_exited, slot, on_slot, live_slot_mut}
use slopos.Process.Files.{on_files}
use slopos.Process.LifeCycle.{
  slot-Place, slot_in-missing, slot_in-Place, changed-Place, changed_elsewhere,
}
use slopos.Process.Effects.{exited_from}
use slopos.Process.Invariant.{IsValid}

pub data Delegated {ℓ} {A : Type ℓ} (t : ProcessTable) (pid : ℕ)
    (f : FileDescriptorTable → Result VfsError A × FileDescriptorTable)
    : Result ProcessError A × ProcessTable → Type ℓ where
  missing : slot t pid ≡ none → Delegated t pid f (err not_found, t)
  dead :
      (s : ProcessSlot)
      → slot t pid ≡ some s
      → s.state ≡ some exited
      → Delegated t pid f (err invalid_state, t)
  passed :
      (s : ProcessSlot) (t' : ProcessTable)
      → slot t pid ≡ some s
      → slot t' pid ≡ some (record s { descriptors = (f s.descriptors).1 })
      → ((q : ℕ) → q ≢ pid → slot t' q ≡ slot t q)
      → t'.count ≡ t.count
      → t'.next_pid ≡ t.next_pid
      → Delegated t pid f (map_err vfs (f s.descriptors).0, t')

-- A file method of a valid table answers NotFound for a number not in use and InvalidState for an
-- exited process, without a change; otherwise the answer is that of the descriptor table of the
-- process, whose slot takes the new table and is as before in all else, and every other process
-- stays as it was.
pub on_files-Delegated {ℓ} :
    {A : Type ℓ} (t : ProcessTable) (pid : ℕ)
    (f : FileDescriptorTable → Result VfsError A × FileDescriptorTable)
    → IsValid t
    → Delegated t pid f (on_files t pid f)
unfolding on_files live_slot_mut on_slot
on_files-Delegated t pid f v = elim (Option-cases (slot t pid)) [
  | inl gone ↦ rw (slot_in-missing (λ s. not (is_exited s)) t pid gone) (missing gone)
  | inr (s, found) ↦
      let p = slot-Place t pid s found in
      elim (Bool-cases (is_exited s)) [
        | inl over ↦
            rw (slot_in-Place (λ s. not (is_exited s)) t pid s p, over)
              (dead s found (exited_from s over))
        | inr lives ↦
            let new : ProcessSlot = record s { descriptors = (f s.descriptors).1 } in
            rw (slot_in-Place (λ s. not (is_exited s)) t pid s p, lives)
              (passed s (record t { slots = set t.slots p.i new }) found
                (changed-Place t pid s new p v (ground (arith, p.is)) refl)
                (changed_elsewhere t pid s new p v (ground (arith, p.is)) refl) refl refl)
      ]
]
