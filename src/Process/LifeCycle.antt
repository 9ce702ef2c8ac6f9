-- ===== src/Process/LifeCycle.antt =====
-- The states of a process: what each of the calls that move a process answers and leaves.
use slopos.Base.{
  ℕ, ◌≡◌, refl, true, Bool, Option, some, none, get_elem?, set, arith, inl, inr, Option-cases,
  Bool-cases, Result, ok, err, find, find-get_elem?, if◌then◌else◌, false, ◌≢◌,
}
use slopos.Process.Table.Lookup.{Unique-set, lookup-set, Unique}
use slopos.Process.Table.{
  ProcessSlot, ProcessTable, is_live, is_process, slot, slot_mut, slot_in, on_slot, mark_running,
  mark_runnable, mark_blocked, exit, running_slot_mut, is_schedulable, is_stopping, is_running,
}
use slopos.Process.{
  ProcessState, ready, running, blocked, runnable, exited, ProcessError, not_found, invalid_state,
}
use slopos.Process.Invariant.{IsValid}

-- The calls that move a process.
pub data Move : Type 0 where
  dispatch make_runnable suspend : Move
  finish : ℕ → Move

unfoldable pub move : ProcessTable → ℕ → Move → Result ProcessError (Unit {0}) × ProcessTable
move t pid dispatch = mark_running t pid
move t pid make_runnable = mark_runnable t pid
move t pid suspend = mark_blocked t pid
move t pid (finish status) = exit t pid status

-- The life cycle: where a move leads from a state.
abbrev pub next_state : Move → ProcessState → Option ProcessState
next_state dispatch ready = some running
next_state dispatch runnable = some running
next_state make_runnable running = some runnable
next_state make_runnable blocked = some runnable
next_state suspend running = some blocked
next_state (finish status) running = some exited
next_state _ _ = none

abbrev pub status_after : Move → Option ℕ → Option ℕ
status_after (finish status) old = some status
status_after _ old = old

pub data Moved (t : ProcessTable) (pid : ℕ) (m : Move)
    : Result ProcessError (Unit {0}) × ProcessTable → Type 0 where
  missing : slot t pid ≡ none → Moved t pid m (err not_found, t)
  refused :
      (s : ProcessSlot) (st : ProcessState)
      → slot t pid ≡ some s
      → s.state ≡ some st
      → next_state m st ≡ none
      → Moved t pid m (err invalid_state, t)
  goes :
      (s : ProcessSlot) (st st' : ProcessState) (t' : ProcessTable)
      → slot t pid ≡ some s
      → s.state ≡ some st
      → next_state m st ≡ some st'
      → slot t' pid
        ≡ some (record s { state = some st'; exit_status = status_after m s.exit_status })
      → Moved t pid m (ok tt, t')

pub record Place (t : ProcessTable) (pid : ℕ) (s : ProcessSlot) : Type 0 where
  pub i : ℕ
  pub at : get_elem? t.slots i ≡ some s
  pub is : is_process pid s ≡ true
  pub finds : slot_mut t pid ≡ some (i, s)

pub slot-Place :
    (t : ProcessTable) (pid : ℕ) (s : ProcessSlot) → slot t pid ≡ some s → Place t pid s
unfolding slot slot_mut
slot-Place t pid s h = elim (Option-cases (find (is_process pid) t.slots)) [
  | inl e ↦ absurd (ground arith)
  | inr ((j, a), e) ↦
      let (at, p) = find-get_elem? (is_process pid) t.slots j a e in
      record { i = j; at = ground arith; is = ground arith; finds = ground arith }
]

slot_none : (t : ProcessTable) (pid : ℕ) → slot t pid ≡ none → slot_mut t pid ≡ none
unfolding slot slot_mut
slot_none t pid h = elim (Option-cases (find (is_process pid) t.slots)) [
  | inl e ↦ e
  | inr ((j, a), e) ↦ absurd (ground arith)
]

-- `slot_mut` and the test of a method.
pub slot_in-missing :
    (test : ProcessSlot → Bool) (t : ProcessTable) (pid : ℕ)
    → slot t pid ≡ none
    → slot_in test t pid ≡ err not_found
unfolding slot_in
slot_in-missing test t pid h = rw (slot_none t pid h) refl

pub slot_in-Place :
    (test : ProcessSlot → Bool) (t : ProcessTable) (pid : ℕ) (s : ProcessSlot) (p : Place t pid s)
    → slot_in test t pid ≡ (if test s then ok (p.i, s) else err invalid_state)
unfolding slot_in
slot_in-Place test t pid s p = rw p.finds (ground arith)

live_state :
    (t : ProcessTable) (pid : ℕ) (s : ProcessSlot)
    → Place t pid s
    → (st : ProcessState) × (s.state ≡ some st)
live_state t pid s p = elim (Option-cases s.state) [
  | inl e ↦ absurd (ground (arith, p.is))
  | inr found ↦ found
]

-- A change of a process that keeps its number is found under that number.
pub changed-Place :
    (t : ProcessTable) (pid : ℕ) (s new : ProcessSlot) (p : Place t pid s)
    → IsValid t
    → is_live new ≡ true
    → new.pid ≡ s.pid
    → slot (record t { slots = set t.slots p.i new }) pid ≡ some new
unfolding slot slot_mut
changed-Place t pid s new p v live same =
    let u =
      Unique-set t.slots p.i s new v.unique p.at (λ j b e l f now.
        v.unique.places j p.i b s e p.at l (ground (arith, p.is)) (ground arith)) in
    ground (arith, p.is, lookup-set t.slots p.i s new v.unique p.at pid u)

-- A write to one slot is not seen under the numbers that neither its old nor its new content has.
pub slot_elsewhere :
    (t : ProcessTable) (i : ℕ) (old new : ProcessSlot) (next count q : ℕ)
    → Unique t.slots
    → get_elem? t.slots i ≡ some old
    → Unique (set t.slots i new)
    → is_process q old ≡ false
    → is_process q new ≡ false
    → slot (record t { slots = set t.slots i new; next_pid = next; count = count }) q ≡ slot t q
unfolding slot slot_mut
slot_elsewhere t i old new next count q u at w before after =
    ground (arith, lookup-set t.slots i old new u at q w)

pub changed_elsewhere :
    (t : ProcessTable) (pid : ℕ) (s new : ProcessSlot) (p : Place t pid s)
    → IsValid t
    → is_live new ≡ true
    → new.pid ≡ s.pid
    → (q : ℕ) → q ≢ pid
    → slot (record t { slots = set t.slots p.i new }) q ≡ slot t q
changed_elsewhere t pid s new p v live same q other =
    let u =
      Unique-set t.slots p.i s new v.unique p.at (λ j b e l f now.
        v.unique.places j p.i b s e p.at l (ground (arith, p.is)) (ground arith)) in
    slot_elsewhere t p.i s new t.next_pid t.count q v.unique p.at u (ground (arith, p.is))
      (ground (arith, p.is))

-- A method that enters a state from those that its test accepts.
enters-Moved :
    (m : Move) (target : ProcessState) (test : ProcessSlot → Bool) (t : ProcessTable) (pid : ℕ)
    → IsValid t
    → ((s : ProcessSlot) (st : ProcessState)
        → s.state ≡ some st
        → next_state m st ≡ (if test s then some target else none))
    → Moved t pid m (
        on_slot t (slot_in test t pid) (λ s.
          (ok tt, record s { state = some target; exit_status = status_after m s.exit_status })))
unfolding on_slot slot slot_mut
enters-Moved m target test t pid v leads = elim (Option-cases (slot t pid)) [
  | inl gone ↦ rw (slot_in-missing test t pid gone) (missing gone)
  | inr (s, found) ↦
      let p = slot-Place t pid s found in
      let (st, e) = live_state t pid s p in
      elim (Bool-cases (test s)) [
        | inr fails ↦
            rw (slot_in-Place test t pid s p, fails)
              (refused s st found e (ground (arith, leads s st e)))
        | inl passes ↦
            let new : ProcessSlot = record s {
              state = some target;
              exit_status = status_after m s.exit_status;
            } in
            rw (slot_in-Place test t pid s p, passes)
              (goes s st target (record t { slots = set t.slots p.i new }) found e
                (ground (arith, leads s st e)) (changed-Place t pid s new p v refl refl))
      ]
]

abbrev entered : Move → ProcessState
entered dispatch = running
entered make_runnable = runnable
entered suspend = blocked
entered (finish status) = exited

abbrev accepts : Move → ProcessSlot → Bool
accepts dispatch = is_schedulable
accepts make_runnable = is_stopping
accepts suspend = is_running
accepts (finish status) = is_running

accepts-next_state :
    (m : Move) (s : ProcessSlot) (st : ProcessState)
    → s.state ≡ some st
    → next_state m st ≡ (if accepts m s then some (entered m) else none)
accepts-next_state dispatch s st e = ground arith
accepts-next_state make_runnable s st e = ground arith
accepts-next_state suspend s st e = ground arith
accepts-next_state (finish status) s st e = ground arith

-- On a valid table, `mark_running`, `mark_runnable`, `mark_blocked` and `exit` follow the life
-- cycle: NotFound for a number not in use, InvalidState where the cycle has no such move, both
-- without a change, and otherwise the process is in the next state and keeps all else, but that
-- `exit` records the status.
pub move-Moved : (t : ProcessTable) (pid : ℕ) (m : Move) → IsValid t → Moved t pid m (move t pid m)
unfolding move mark_running mark_runnable mark_blocked exit running_slot_mut
move-Moved t pid dispatch v =
    enters-Moved dispatch running is_schedulable t pid v (accepts-next_state dispatch)
move-Moved t pid make_runnable v =
    enters-Moved make_runnable runnable is_stopping t pid v (accepts-next_state make_runnable)
move-Moved t pid suspend v =
    enters-Moved suspend blocked is_running t pid v (accepts-next_state suspend)
move-Moved t pid (finish status) v =
    enters-Moved (finish status) exited is_running t pid v (accepts-next_state (finish status))
