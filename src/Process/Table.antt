-- ===== src/Process/Table.antt =====
-- crates/process/src/lib.rs: `ProcessTable`, its slots and the calls that move a process through
-- its states. A method that finds a slot and changes it is `on_slot` with what it does there.
pub mod Lookup
use slopos.Base.{
  ◌>>◌, ℕ, ◌+◌, ◌-◌, ◌≡◌, Bool, true, false, ◌&&◌, ◌||◌, not, Option, some, none, List, [], ◌∷◌,
  Result, ok, err, ◌>>=◌, ensure, ltb, leb, ◌==◌, ok_or, find, set, replicate, checked_add, u32_mod,
  u64_mod, if◌then◌else◌, map_err,
}
use slopos.Vfs.{VfsError}
use slopos.Vfs.Descriptors.{FileDescriptorTable}
use slopos.Vfs.Descriptors
use slopos.Process.{
  ProcessState, ready, running, blocked, runnable, exited, ProcessImage, ProcessError, table_full,
  pid_exhausted, not_found, invalid_state, counter_overflow, ProcessSnapshot, validate_image,
}

pub record ProcessSlot : Type 0 where
  pub pid : ℕ
  pub parent : Option ℕ
  pub state : Option ProcessState
  pub image : ProcessImage
  pub exit_status : Option ℕ
  pub syscall_count : ℕ
  pub descriptors : FileDescriptorTable

abbrev pub no_image : ProcessImage
no_image = record {
  address_space_root = 0;
  entry = 0;
  stack_pointer = 0;
  stack_top = 0;
  user_memory_start = 0;
  user_memory_end = 0;
}

-- ProcessSlot::empty
unfoldable pub empty_slot : ℕ → ProcessSlot
empty_slot fds = record {
  pid = 0;
  parent = none;
  state = none;
  image = no_image;
  exit_status = none;
  syscall_count = 0;
  descriptors = Descriptors.new fds;
}

-- The capacity N is the length of the array, and `fd_capacity` is FDS.
pub record ProcessTable : Type 0 where
  pub slots : List ProcessSlot
  pub next_pid : ℕ
  pub count : ℕ
  pub fd_capacity : ℕ

unfoldable pub new : ℕ → ℕ → ProcessTable
new n fds = record {
  slots = replicate n (empty_slot fds);
  next_pid = 1;
  count = 0;
  fd_capacity = fds;
}

abbrev pub is_live : ProcessSlot → Bool
is_live s = elim s.state [ none ↦ false | some st ↦ true ]

abbrev pub is_free : ProcessSlot → Bool
is_free s = not (is_live s)

abbrev pub is_process : ℕ → ProcessSlot → Bool
is_process pid s = is_live s && s.pid == pid

-- `slot_mut`: the slot and its place.
unfoldable pub slot_mut : ProcessTable → ℕ → Option (ℕ × ProcessSlot)
slot_mut t pid = find (is_process pid) t.slots

abbrev pub second : Option (ℕ × ProcessSlot) → Option ProcessSlot
second none = none
second (some (i, s)) = some s

unfoldable pub slot : ProcessTable → ℕ → Option ProcessSlot
unfolding slot_mut
slot t pid = second (slot_mut t pid)

-- Tests on a slot's state: `matches!` and `==`.
abbrev pub is_schedulable : ProcessSlot → Bool
is_schedulable s = elim s.state [ some ready ↦ true | some runnable ↦ true | _ ↦ false ]

abbrev pub is_stopping : ProcessSlot → Bool
is_stopping s = elim s.state [ some running ↦ true | some blocked ↦ true | _ ↦ false ]

abbrev pub is_running : ProcessSlot → Bool
is_running s = elim s.state [ some running ↦ true | _ ↦ false ]

abbrev pub is_exited : ProcessSlot → Bool
is_exited s = elim s.state [ some exited ↦ true | _ ↦ false ]

-- The slot of a process whose state passes a test, NotFound or InvalidState.
unfoldable pub slot_in :
    (ProcessSlot → Bool) → ProcessTable → ℕ → Result ProcessError (ℕ × ProcessSlot)
unfolding slot_mut
slot_in test t pid = do
  found ← ok_or (slot_mut t pid) not_found
  ensure (test found.1) invalid_state
  ok found

unfoldable pub running_slot_mut : ProcessTable → ℕ → Result ProcessError (ℕ × ProcessSlot)
unfolding slot_in
running_slot_mut = slot_in is_running

unfoldable pub live_slot_mut : ProcessTable → ℕ → Result ProcessError (ℕ × ProcessSlot)
unfolding slot_in
live_slot_mut = slot_in (λ s. not (is_exited s))

-- Run the rest of a method on the slot that is found, and keep what it leaves there.
unfoldable pub on_slot {ℓ} :
    {A : Type ℓ}
    → ProcessTable
    → Result ProcessError (ℕ × ProcessSlot)
    → (ProcessSlot → Result ProcessError A × ProcessSlot)
    → Result ProcessError A × ProcessTable
on_slot t (err e) rest = (err e, t)
on_slot t (ok (i, s)) rest = let (r, s') = rest s in (r, record t { slots = set t.slots i s' })

abbrev pub enter : ProcessState → ProcessSlot → Result ProcessError (Unit {0}) × ProcessSlot
enter state s = (ok tt, record s { state = some state })

unfoldable pub counted : ProcessSlot → Result ProcessError ℕ × ProcessSlot
counted s = elim (checked_add u64_mod s.syscall_count 1) [
  | none ↦ (err counter_overflow, s)
  | some n ↦ (ok n, record s { syscall_count = n })
]

module _ (t : ProcessTable) (pid : ℕ) where
  unfoldable pub mark_running : Result ProcessError (Unit {0}) × ProcessTable
  unfolding slot_in on_slot
  mark_running = on_slot t (slot_in is_schedulable t pid) (enter running)

  unfoldable pub mark_runnable : Result ProcessError (Unit {0}) × ProcessTable
  unfolding slot_in on_slot
  mark_runnable = on_slot t (slot_in is_stopping t pid) (enter runnable)

  unfoldable pub mark_blocked : Result ProcessError (Unit {0}) × ProcessTable
  unfolding running_slot_mut on_slot
  mark_blocked = on_slot t (running_slot_mut t pid) (enter blocked)

  unfoldable pub record_syscall : Result ProcessError ℕ × ProcessTable
  unfolding running_slot_mut on_slot counted
  record_syscall = on_slot t (running_slot_mut t pid) counted

  unfoldable pub exit : ℕ → Result ProcessError (Unit {0}) × ProcessTable
  unfolding running_slot_mut on_slot
  exit status =
      on_slot t (running_slot_mut t pid)
        (λ s. (ok tt, record s { state = some exited; exit_status = some status }))

-- ProcessSlot::snapshot
unfoldable pub snapshot_of : ProcessSlot → Option ProcessSnapshot
snapshot_of s = elim s.state [
  | none ↦ none
  | some state ↦ some (record {
    pid = s.pid;
    parent = s.parent;
    state = state;
    image = s.image;
    exit_status = s.exit_status;
    syscall_count = s.syscall_count;
  })
]

-- The last steps of `reap`, on an exited slot.
unfoldable pub reap_slot :
    ProcessTable
    → Result ProcessError (ℕ × ProcessSlot)
    → Result ProcessError ProcessSnapshot × ProcessTable
unfolding snapshot_of empty_slot
reap_slot t (err e) = (err e, t)
reap_slot t (ok (i, s)) = elim (snapshot_of s) [
  | none ↦ (err not_found, t)
  | some snapshot ↦ (
    ok snapshot,
    record t { slots = set t.slots i (empty_slot t.fd_capacity); count = t.count - 1 },
  )
]

unfoldable pub reap : ProcessTable → ℕ → Result ProcessError ProcessSnapshot × ProcessTable
unfolding slot_in reap_slot
reap t pid = reap_slot t (slot_in is_exited t pid)

unfoldable pub snapshot : ProcessTable → ℕ → Result ProcessError ProcessSnapshot
unfolding slot snapshot_of
snapshot t pid = do s ← ok_or (slot t pid) not_found; ok_or (snapshot_of s) not_found

abbrev pub has_parent : ProcessTable → Option ℕ → Bool
has_parent t none = true
has_parent t (some parent) = elim (slot t parent) [ none ↦ false | some s ↦ true ]

-- The checks of `spawn`: a free place and the next process number.
unfoldable pub spawn_slot : ProcessTable → Option ℕ → ProcessImage → Result ProcessError (ℕ × ℕ)
unfolding validate_image slot
spawn_slot t parent image = do
  validate_image image
  ensure (has_parent t parent) not_found
  free ← ok_or (find is_free t.slots) table_full
  next ← ok_or (checked_add u32_mod t.next_pid 1) pid_exhausted
  ok (free.0, next)

unfoldable pub new_slot : ProcessTable → Option ℕ → ProcessImage → ProcessSlot
new_slot t parent image = record {
  pid = t.next_pid;
  parent = parent;
  state = some ready;
  image = image;
  exit_status = none;
  syscall_count = 0;
  descriptors = Descriptors.new t.fd_capacity;
}

unfoldable pub fill_slot :
    ProcessTable
    → Option ℕ
    → ProcessImage
    → Result ProcessError (ℕ × ℕ)
    → Result ProcessError ℕ × ProcessTable
unfolding new_slot
fill_slot t parent image (err e) = (err e, t)
fill_slot t parent image (ok (i, next)) = (
  ok t.next_pid,
  record t {
    slots = set t.slots i (new_slot t parent image);
    next_pid = next;
    count = t.count + 1;
  },
)

unfoldable pub spawn : ProcessTable → Option ℕ → ProcessImage → Result ProcessError ℕ × ProcessTable
unfolding spawn_slot fill_slot
spawn t parent image = fill_slot t parent image (spawn_slot t parent image)
