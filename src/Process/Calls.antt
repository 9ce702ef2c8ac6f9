-- ===== src/Process/Calls.antt =====
-- crates/process/src/lib.rs: the calls that change a process table, and the abstract machine whose
-- steps stand for them: nothing happens, one process moves along its life cycle, a process is born,
-- or an exited process is removed.
use slopos.Process.Table.{
  ProcessSlot, ProcessTable, empty_slot, new_slot, is_live, has_parent, is_process, is_exited,
  mark_running, mark_runnable, mark_blocked, record_syscall, exit, reap, spawn,
}
use slopos.Base.{
  ℕ, ◌+◌, ◌-◌, ◌<◌, ◌≡◌, true, false, Bool, Option, some, none, ok, get_elem?, set, u32_mod,
}
use slopos.Vfs.Descriptors.{FileNode, AccessMode}
use slopos.Process.{
  ProcessState, ready, running, blocked, runnable, exited, ProcessImage, validate_image,
}
use slopos.Process.Files.{
  open_file, open_local_socket, open_shared_memory, open_shared_memory_read_only,
  open_desktop_events, set_descriptor_object_offset, advance_fd, advance_descriptor_object, seek_fd,
  close_fd, close_all_files,
}

-- The calls that change a process table.
pub data Call : Type 0 where
  spawns : Option ℕ → ProcessImage → Call
  runs wakes blocks syscalls reaps closes_all : ℕ → Call
  exits : ℕ → ℕ → Call
  opens_file : ℕ → FileNode → AccessMode → Call
  opens_socket opens_memory opens_memory_read_only : ℕ → ℕ → ℕ → Call
  opens_events closes : ℕ → ℕ → Call
  places advances seeks : ℕ → ℕ → ℕ → Call
  advances_object : ℕ → ℕ → ℕ → ℕ → Call

unfoldable pub perform : ProcessTable → Call → ProcessTable
perform t (spawns parent image) = (spawn t parent image).1
perform t (runs pid) = (mark_running t pid).1
perform t (wakes pid) = (mark_runnable t pid).1
perform t (blocks pid) = (mark_blocked t pid).1
perform t (syscalls pid) = (record_syscall t pid).1
perform t (reaps pid) = (reap t pid).1
perform t (closes_all pid) = (close_all_files t pid).1
perform t (exits pid status) = (exit t pid status).1
perform t (opens_file pid node mode) = (open_file t pid node mode).1
perform t (opens_socket pid index generation) = (open_local_socket t pid index generation).1
perform t (opens_memory pid index generation) = (open_shared_memory t pid index generation).1
perform t (opens_memory_read_only pid index generation) =
    (open_shared_memory_read_only t pid index generation).1
perform t (opens_events pid generation) = (open_desktop_events t pid generation).1
perform t (closes pid fd) = (close_fd t pid fd).1
perform t (places pid fd offset) = (set_descriptor_object_offset t pid fd offset).1
perform t (advances pid fd n) = (advance_fd t pid fd n).1
perform t (seeks pid fd offset) = (seek_fd t pid fd offset).1
perform t (advances_object pid fd n size) = (advance_descriptor_object t pid fd n size).1

-- The process that a call is about: a new one takes the next number.
unfoldable pub target : ProcessTable → Call → ℕ
target t (spawns parent image) = t.next_pid
target t (runs pid) = pid
target t (wakes pid) = pid
target t (blocks pid) = pid
target t (syscalls pid) = pid
target t (reaps pid) = pid
target t (closes_all pid) = pid
target t (exits pid status) = pid
target t (opens_file pid node mode) = pid
target t (opens_socket pid index generation) = pid
target t (opens_memory pid index generation) = pid
target t (opens_memory_read_only pid index generation) = pid
target t (opens_events pid generation) = pid
target t (closes pid fd) = pid
target t (places pid fd offset) = pid
target t (advances pid fd n) = pid
target t (seeks pid fd offset) = pid
target t (advances_object pid fd n size) = pid

-- The life cycle of a process.
pub data Transition : ProcessState → ProcessState → Type 0 where
  stay : (s : ProcessState) → Transition s s
  start : Transition ready running
  resume : Transition runnable running
  preempt : Transition running runnable
  wake : Transition blocked runnable
  block : Transition running blocked
  end : Transition running exited

abbrev pub has_status : ProcessSlot → Bool
has_status s = elim s.exit_status [ none ↦ false | some status ↦ true ]

-- What a call may change in a live slot: its exit status is set as it exits.
pub record Changes (old new : ProcessSlot) : Type 0 where
  pub before : ProcessState
  pub after : ProcessState
  pub was : old.state ≡ some before
  pub now : new.state ≡ some after
  pub along : Transition before after
  pub same_pid : new.pid ≡ old.pid
  pub same_parent : new.parent ≡ old.parent
  pub same_image : new.image ≡ old.image
  pub settles : is_exited old ≡ has_status old → is_exited new ≡ has_status new

-- What a call on the process `pid` does to the table.
pub data Effect (t : ProcessTable) (pid : ℕ) : ProcessTable → Type 0 where
  stays : Effect t pid t
  changes :
      (i : ℕ) (old new : ProcessSlot)
      → get_elem? t.slots i ≡ some old
      → is_process pid old ≡ true
      → Changes old new
      → Effect t pid (record t { slots = set t.slots i new })
  adds :
      (i : ℕ) (old : ProcessSlot) (parent : Option ℕ) (image : ProcessImage)
      → get_elem? t.slots i ≡ some old
      → is_live old ≡ false
      → pid ≡ t.next_pid
      → t.next_pid + 1 < u32_mod
      → validate_image image ≡ ok tt
      → has_parent t parent ≡ true
      → Effect t pid (record t {
        slots = set t.slots i (new_slot t parent image);
        next_pid = t.next_pid + 1;
        count = t.count + 1;
      })
  removes :
      (i : ℕ) (old : ProcessSlot)
      → get_elem? t.slots i ≡ some old
      → is_process pid old ≡ true
      → old.state ≡ some exited
      → Effect t pid
          (record t { slots = set t.slots i (empty_slot t.fd_capacity); count = t.count - 1 })
