-- ===== src/Process/Effects.antt =====
-- The calls of the process table against the abstract machine of Process/Calls.antt.
use slopos.Process.Calls.{
  Call, spawns, runs, wakes, blocks, syscalls, reaps, closes_all, exits, opens_file, opens_socket,
  opens_memory, opens_memory_read_only, opens_events, closes, places, advances, seeks,
  advances_object, perform, target, Transition, stay, start, resume, preempt, wake, block, end,
  Changes, Effect, stays, changes, adds, removes, has_status,
}
use slopos.Vfs.Windows
use slopos.Vfs.Descriptors
use slopos.Process.Table.{
  ProcessSlot, ProcessTable, is_live, is_free, has_parent, enter, is_process, is_schedulable,
  is_stopping, is_running, is_exited, slot_mut, slot_in, on_slot, mark_running, mark_runnable,
  mark_blocked, record_syscall, exit, reap, spawn, counted, running_slot_mut, live_slot_mut,
  spawn_slot, fill_slot, reap_slot, snapshot_of,
}
use slopos.Process.{
  ProcessState, ready, running, blocked, runnable, exited, ProcessImage, ProcessError,
  validate_image, vfs,
}
use slopos.Base.{
  ℕ, ◌+◌, ◌<◌, ◌≡◌, refl, true, false, not, Bool, Option, some, Result, ok, get_elem?, find,
  find-get_elem?, arith, inl, inr, u32_mod, Result-cases, Option-cases, checked_add, u64_mod,
  map_err,
}
use slopos.Vfs.{VfsError}
use slopos.Vfs.Descriptors.{FileNode, AccessMode, FileDescriptorTable}
use slopos.Process.Files.{
  on_files, open_file, open_local_socket, open_shared_memory, open_shared_memory_read_only,
  open_desktop_events, set_descriptor_object_offset, advance_fd, advance_descriptor_object, seek_fd,
  close_fd, close_all_files,
}

pub slot_in_found :
    (test : ProcessSlot → Bool) (t : ProcessTable) (pid i : ℕ) (s : ProcessSlot)
    → slot_in test t pid ≡ ok (i, s)
    → (get_elem? t.slots i ≡ some s) × (test s ≡ true) × (is_process pid s ≡ true)
unfolding slot_in slot_mut
slot_in_found test t pid i s h = elim (Option-cases (find (is_process pid) t.slots)) [
  | inl e ↦ absurd (ground arith)
  | inr ((j, a), e) ↦
      let (at, p) = find-get_elem? (is_process pid) t.slots j a e in
      (ground arith, ground arith, ground arith)
]

-- A method on one slot changes it along the life cycle.
on_slot-Effect {ℓ} :
    {A : Type ℓ} (test : ProcessSlot → Bool) (t : ProcessTable) (pid : ℕ)
    (rest : ProcessSlot → Result ProcessError A × ProcessSlot)
    → ((s : ProcessSlot) → is_live s ≡ true → test s ≡ true → Changes s (rest s).1)
    → Effect t pid (on_slot t (slot_in test t pid) rest).1
unfolding on_slot
on_slot-Effect test t pid rest keep = elim (Result-cases (slot_in test t pid)) [
  | inr (e, h) ↦ rw h stays
  | inl ((i, s), h) ↦
      let (at, passes, p) = slot_in_found test t pid i s h in
      rw h (changes i s (rest s).1 at p (keep s (ground arith) passes))
]

-- The state of a live slot.
state_of : (s : ProcessSlot) → is_live s ≡ true → (st : ProcessState) × (s.state ≡ some st)
state_of s live = elim (Option-cases s.state) [ inl e ↦ absurd (ground arith) | inr found ↦ found ]

-- A method that keeps the state, the numbers and the image.
same-Changes :
    (old new : ProcessSlot)
    → is_live old ≡ true
    → new.state ≡ old.state
    → new.pid ≡ old.pid
    → new.parent ≡ old.parent
    → new.image ≡ old.image
    → new.exit_status ≡ old.exit_status
    → Changes old new
same-Changes old new live state pid parent image status =
    let (st, e) = state_of old live in
    record {
      before = st;
      after = st;
      was = e;
      now = cc;
      along = stay st;
      same_pid = pid;
      same_parent = parent;
      same_image = image;
      settles = λ h. ground arith;
    }

counted-Changes : (s : ProcessSlot) → is_live s ≡ true → Changes s (counted s).1
unfolding counted
counted-Changes s live = elim (Option-cases (checked_add u64_mod s.syscall_count 1)) [
  | inl e ↦ rw (e, counted) (same-Changes s s live refl refl refl refl refl)
  | inr (n, e) ↦
      rw (e, counted)
        (same-Changes s (record s { syscall_count = n }) live refl refl refl refl refl)
]

on_files-Effect {ℓ} :
    {A : Type ℓ} (t : ProcessTable) (pid : ℕ)
    (f : FileDescriptorTable → Result VfsError A × FileDescriptorTable)
    → Effect t pid (on_files t pid f).1
unfolding on_files live_slot_mut
on_files-Effect t pid f =
    on_slot-Effect (λ s. not (is_exited s)) t pid
      (λ s. let (r, ds) = f s.descriptors in (map_err vfs r, record s { descriptors = ds }))
      (λ s live test.
        same-Changes s (record s { descriptors = (f s.descriptors).1 }) live refl refl refl refl
          refl)

-- The states that a call leaves, by its test.
marked :
    (s : ProcessSlot) (before after : ProcessState) (status : Option ℕ)
    → s.state ≡ some before
    → Transition before after
    → (is_exited s ≡ has_status s
        → is_exited (record s { state = some after })
          ≡ has_status (record s { exit_status = status }))
    → Changes s (record s { state = some after; exit_status = status })
marked s before after status was along settles = record {
  before = before;
  after = after;
  was = was;
  now = refl;
  along = along;
  same_pid = refl;
  same_parent = refl;
  same_image = refl;
  settles = settles;
}

runs_from :
    (s : ProcessSlot)
    → is_schedulable s ≡ true
    → (st : ProcessState) × (s.state ≡ some st) × Transition st running
runs_from s test = from s.state refl test
  where
    from :
        (o : Option ProcessState)
        → s.state ≡ o
        → is_schedulable (record s { state = o }) ≡ true
        → (st : ProcessState) × (s.state ≡ some st) × Transition st running
    from (some ready) e h = (ready, e, start)
    from (some runnable) e h = (runnable, e, resume)
    from _ e h = absurd (ground arith)

wakes_from :
    (s : ProcessSlot)
    → is_stopping s ≡ true
    → (st : ProcessState) × (s.state ≡ some st) × Transition st runnable
wakes_from s test = from s.state refl test
  where
    from :
        (o : Option ProcessState)
        → s.state ≡ o
        → is_stopping (record s { state = o }) ≡ true
        → (st : ProcessState) × (s.state ≡ some st) × Transition st runnable
    from (some running) e h = (running, e, preempt)
    from (some blocked) e h = (blocked, e, wake)
    from _ e h = absurd (ground arith)

running_from : (s : ProcessSlot) → is_running s ≡ true → s.state ≡ some running
running_from s test = from s.state refl test
  where
    from :
        (o : Option ProcessState)
        → s.state ≡ o
        → is_running (record s { state = o }) ≡ true
        → s.state ≡ some running
    from (some running) e h = e
    from _ e h = absurd (ground arith)

pub exited_from : (s : ProcessSlot) → is_exited s ≡ true → s.state ≡ some exited
exited_from s test = from s.state refl test
  where
    from :
        (o : Option ProcessState)
        → s.state ≡ o
        → is_exited (record s { state = o }) ≡ true
        → s.state ≡ some exited
    from (some exited) e h = e
    from _ e h = absurd (ground arith)

reap-Effect : (t : ProcessTable) (pid : ℕ) → Effect t pid (reap t pid).1
unfolding reap reap_slot snapshot_of
reap-Effect t pid = elim (Result-cases (slot_in is_exited t pid)) [
  | inr (e, h) ↦ rw (h, reap_slot) stays
  | inl ((i, s), h) ↦
      let (at, passes, p) = slot_in_found is_exited t pid i s h in
      let e = exited_from s passes in rw (h, reap_slot, e, snapshot_of) (removes i s at p e)
]

-- What the checks of `spawn` have seen when they pass.
pub record Passed (t : ProcessTable) (parent : Option ℕ) (image : ProcessImage) (i next : ℕ)
    : Type 0 where
  pub old : ProcessSlot
  pub at : get_elem? t.slots i ≡ some old
  pub free : is_live old ≡ false
  pub following : next ≡ t.next_pid + 1
  pub fits : t.next_pid + 1 < u32_mod
  pub image_valid : validate_image image ≡ ok tt
  pub parent_lives : has_parent t parent ≡ true

pub spawn_slot-Passed :
    (t : ProcessTable) (parent : Option ℕ) (image : ProcessImage) (i next : ℕ)
    → spawn_slot t parent image ≡ ok (i, next)
    → Passed t parent image i next
unfolding spawn_slot
spawn_slot-Passed t parent image i next h = elim (Result-cases (validate_image image)) [
  | inr (e, v) ↦ absurd (ground arith)
  | inl (u, v) ↦ elim (Option-cases (find is_free t.slots)) [
    | inl f ↦ absurd (ground arith)
    | inr ((j, old), f) ↦
        let (at, free) = find-get_elem? is_free t.slots j old f in
        record {
          old = old;
          at = ground arith;
          free = ground arith;
          following = ground arith;
          fits = ground arith;
          image_valid = v;
          parent_lives = ground arith;
        }
  ]
]

spawn-Effect :
    (t : ProcessTable) (parent : Option ℕ) (image : ProcessImage)
    → Effect t t.next_pid (spawn t parent image).1
unfolding spawn fill_slot
spawn-Effect t parent image = elim (Result-cases (spawn_slot t parent image)) [
  | inr (e, h) ↦ rw (h, fill_slot) stays
  | inl ((i, next), h) ↦
      let p = spawn_slot-Passed t parent image i next h in
      rw (h, fill_slot, p.following)
        (adds i p.old parent image p.at p.free refl p.fits p.image_valid p.parent_lives)
]

-- Every call that changes a process table is a step of the abstract machine: nothing, one move of
-- the process that the call is about along the life cycle, a new process in a free slot, or the
-- removal of an exited one.
pub perform-Effect : (t : ProcessTable) (call : Call) → Effect t (target t call) (perform t call)
unfolding perform target mark_running mark_runnable mark_blocked record_syscall exit open_file
    open_local_socket open_shared_memory open_shared_memory_read_only open_desktop_events
    set_descriptor_object_offset advance_fd advance_descriptor_object seek_fd close_fd
    close_all_files running_slot_mut
perform-Effect t (spawns parent image) = spawn-Effect t parent image
perform-Effect t (runs pid) = on_slot-Effect is_schedulable t pid (enter running) (λ s live test.
    let (st, was, along) = runs_from s test in
    marked s st running s.exit_status was along (λ h. ground arith))
perform-Effect t (wakes pid) = on_slot-Effect is_stopping t pid (enter runnable) (λ s live test.
    let (st, was, along) = wakes_from s test in
    marked s st runnable s.exit_status was along (λ h. ground arith))
perform-Effect t (blocks pid) = on_slot-Effect is_running t pid (enter blocked) (λ s live test.
    marked s running blocked s.exit_status (running_from s test) block (λ h. ground arith))
perform-Effect t (syscalls pid) =
    on_slot-Effect is_running t pid counted (λ s live test. counted-Changes s live)
perform-Effect t (reaps pid) = reap-Effect t pid
perform-Effect t (closes_all pid) =
    on_slot-Effect is_exited t pid
      (λ s.
        let (closed, ds) = Windows.close_all s.descriptors in
        (ok closed, record s { descriptors = ds }))
      (λ s live test.
        same-Changes s (record s { descriptors = (Windows.close_all s.descriptors).1 }) live refl
          refl refl refl refl)
perform-Effect t (exits pid status) =
    on_slot-Effect is_running t pid
      (λ s. (ok tt, record s { state = some exited; exit_status = some status }))
      (λ s live test. marked s running exited (some status) (running_from s test) end (λ h. refl))
perform-Effect t (opens_file pid node mode) =
    on_files-Effect t pid (λ ds. Descriptors.open_with_mode ds node mode)
perform-Effect t (opens_socket pid index generation) =
    on_files-Effect t pid (λ ds. Descriptors.open_local_socket ds index generation)
perform-Effect t (opens_memory pid index generation) =
    on_files-Effect t pid (λ ds. Descriptors.open_shared_memory ds index generation)
perform-Effect t (opens_memory_read_only pid index generation) =
    on_files-Effect t pid (λ ds. Descriptors.open_shared_memory_read_only ds index generation)
perform-Effect t (opens_events pid generation) =
    on_files-Effect t pid (λ ds. Descriptors.open_desktop_events ds generation)
perform-Effect t (closes pid fd) = on_files-Effect t pid (λ ds. Windows.close ds fd)
perform-Effect t (places pid fd offset) =
    on_files-Effect t pid (λ ds. Windows.set_object_offset ds fd offset)
perform-Effect t (advances pid fd n) = on_files-Effect t pid (λ ds. Windows.advance ds fd n)
perform-Effect t (seeks pid fd offset) = on_files-Effect t pid (λ ds. Windows.seek ds fd offset)
perform-Effect t (advances_object pid fd n size) =
    on_files-Effect t pid (λ ds. Windows.advance_object ds fd n size)
