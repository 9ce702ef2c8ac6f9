-- ===== src/Process/Files.antt =====
-- crates/process/src/lib.rs: the methods of `ProcessTable` that pass a call on to the descriptor
-- table of one process.
use slopos.Base.{ℕ, Option, Result, ok, ◌>>=◌, ensure, not, map_err, ok_or, List, ◌>>◌}
use slopos.Vfs.{VfsError}
use slopos.Vfs.Descriptors
use slopos.Vfs.Windows
use slopos.Vfs.Descriptors.{FileNode, DescriptorObject, AccessMode, FileDescriptorTable, Window}
use slopos.Process.{ProcessError, not_found, invalid_state, vfs}
use slopos.Process.Table.{
  ProcessSlot, ProcessTable, slot, slot_in, live_slot_mut, on_slot, is_exited,
}

-- `self.live_slot_mut(pid)?.descriptors.f(…).map_err(ProcessError::Vfs)`
unfoldable pub on_files {ℓ} :
    {A : Type ℓ}
    → ProcessTable
    → ℕ
    → (FileDescriptorTable → Result VfsError A × FileDescriptorTable)
    → Result ProcessError A × ProcessTable
unfolding live_slot_mut on_slot
on_files t pid f =
    on_slot t (live_slot_mut t pid)
      (λ s. let (r, ds) = f s.descriptors in (map_err vfs r, record s { descriptors = ds }))

unfoldable pub live_slot : ProcessTable → ℕ → Result ProcessError ProcessSlot
unfolding slot
live_slot t pid = do
  s ← ok_or (slot t pid) not_found
  ensure (not (is_exited s)) invalid_state
  ok s

-- `self.live_slot(pid)?.descriptors.f(…).map_err(ProcessError::Vfs)`
unfoldable pub with_files {ℓ} :
    {A : Type ℓ}
    → ProcessTable
    → ℕ
    → (FileDescriptorTable → Result VfsError A)
    → Result ProcessError A
unfolding live_slot
with_files t pid f = do s ← live_slot t pid; map_err vfs (f s.descriptors)

module _ (t : ProcessTable) (pid : ℕ) where
  unfoldable pub open_file : FileNode → AccessMode → Result ProcessError ℕ × ProcessTable
  unfolding on_files
  open_file node mode = on_files t pid (λ ds. Descriptors.open_with_mode ds node mode)

  unfoldable pub open_local_socket : ℕ → ℕ → Result ProcessError ℕ × ProcessTable
  unfolding on_files
  open_local_socket index generation =
      on_files t pid (λ ds. Descriptors.open_local_socket ds index generation)

  unfoldable pub open_shared_memory : ℕ → ℕ → Result ProcessError ℕ × ProcessTable
  unfolding on_files
  open_shared_memory index generation =
      on_files t pid (λ ds. Descriptors.open_shared_memory ds index generation)

  unfoldable pub open_shared_memory_read_only : ℕ → ℕ → Result ProcessError ℕ × ProcessTable
  unfolding on_files
  open_shared_memory_read_only index generation =
      on_files t pid (λ ds. Descriptors.open_shared_memory_read_only ds index generation)

  unfoldable pub open_desktop_events : ℕ → Result ProcessError ℕ × ProcessTable
  unfolding on_files
  open_desktop_events generation =
      on_files t pid (λ ds. Descriptors.open_desktop_events ds generation)

  unfoldable pub descriptor_object : ℕ → Result ProcessError DescriptorObject
  unfolding with_files
  descriptor_object fd = with_files t pid (λ ds. Windows.object ds fd)

  unfoldable pub readable_descriptor_object : ℕ → Result ProcessError (DescriptorObject × ℕ)
  unfolding with_files
  readable_descriptor_object fd = with_files t pid (λ ds. Windows.readable_object ds fd)

  unfoldable pub set_descriptor_object_offset :
      ℕ → ℕ → Result ProcessError (Unit {0}) × ProcessTable
  unfolding on_files
  set_descriptor_object_offset fd offset =
      on_files t pid (λ ds. Windows.set_object_offset ds fd offset)

  -- The slots that are left in `output`, and the number copied.
  unfoldable pub descriptor_objects :
      List (Option DescriptorObject) → Result ProcessError (List (Option DescriptorObject) × ℕ)
  unfolding slot
  descriptor_objects output = do
    s ← ok_or (slot t pid) not_found
    ok (Windows.snapshot_objects s.descriptors output)

  unfoldable pub read_window : ℕ → ℕ → Result ProcessError Window
  unfolding with_files
  read_window fd requested = with_files t pid (λ ds. Windows.read_window ds fd requested)

  unfoldable pub write_window : ℕ → ℕ → Result ProcessError Window
  unfolding with_files
  write_window fd requested = with_files t pid (λ ds. Windows.write_window ds fd requested)

  unfoldable pub advance_fd : ℕ → ℕ → Result ProcessError (Unit {0}) × ProcessTable
  unfolding on_files
  advance_fd fd length = on_files t pid (λ ds. Windows.advance ds fd length)

  unfoldable pub advance_descriptor_object :
      ℕ → ℕ → ℕ → Result ProcessError (Unit {0}) × ProcessTable
  unfolding on_files
  advance_descriptor_object fd length object_size =
      on_files t pid (λ ds. Windows.advance_object ds fd length object_size)

  unfoldable pub seek_fd : ℕ → ℕ → Result ProcessError (Unit {0}) × ProcessTable
  unfolding on_files
  seek_fd fd offset = on_files t pid (λ ds. Windows.seek ds fd offset)

  unfoldable pub close_fd : ℕ → Result ProcessError (Unit {0}) × ProcessTable
  unfolding on_files
  close_fd fd = on_files t pid (λ ds. Windows.close ds fd)

  unfoldable pub close_all_files : Result ProcessError ℕ × ProcessTable
  unfolding slot_in on_slot
  close_all_files = on_slot t (slot_in is_exited t pid) (λ s.
      let (closed, ds) = Windows.close_all s.descriptors in
      (ok closed, record s { descriptors = ds }))
