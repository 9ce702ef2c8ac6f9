-- ===== src/Process/Burial.antt =====
-- The end of a process: what `reap` returns of it and leaves of its number.
use slopos.Base.{
  ℕ, ◌+◌, ◌-◌, ◌≡◌, ◌≢◌, refl, true, some, none, set, arith, inl, inr, Option-cases, Bool-cases,
  Result, ok, err, All-get_elem?, count-set,
}
use slopos.Process.{exited, ProcessSnapshot, ProcessError, not_found, invalid_state}
use slopos.Process.Table.{
  ProcessSlot, ProcessTable, is_live, slot, slot_mut, reap, reap_slot, is_exited, snapshot_of,
  empty_slot,
}
use slopos.Process.Table.Lookup.{Unique-set, lookup-set}
use slopos.Process.Effects.{exited_from}
use slopos.Process.LifeCycle.{slot_elsewhere, Place, slot-Place, slot_in-missing, slot_in-Place}
use slopos.Process.Invariant.{IsValid, SlotIsValid}

pub data Reaped (t : ProcessTable) (pid : ℕ)
    : Result ProcessError ProcessSnapshot × ProcessTable → Type 0 where
  missing : slot t pid ≡ none → Reaped t pid (err not_found, t)
  alive :
      (s : ProcessSlot)
      → slot t pid ≡ some s
      → s.state ≢ some exited
      → Reaped t pid (err invalid_state, t)
  buried :
      (s : ProcessSlot) (last : ProcessSnapshot) (status : ℕ) (t' : ProcessTable)
      → slot t pid ≡ some s
      → s.state ≡ some exited
      → s.exit_status ≡ some status
      → last ≡ record {
        pid = pid;
        parent = s.parent;
        state = exited;
        image = s.image;
        exit_status = some status;
        syscall_count = s.syscall_count;
      }
      → slot t' pid ≡ none
      → ((q : ℕ) → q ≢ pid → slot t' q ≡ slot t q)
      → t'.count + 1 ≡ t.count
      → Reaped t pid (ok last, t')

status_of :
    {n : ℕ} (s : ProcessSlot)
    → is_exited s ≡ true
    → SlotIsValid n s
    → (status : ℕ) × (s.exit_status ≡ some status)
status_of s e v = elim (Option-cases s.exit_status) [
  | inl f ↦ absurd (ground (arith, v.settled))
  | inr found ↦ found
]

exited_snapshot :
    (s : ProcessSlot)
    → is_exited s ≡ true
    → snapshot_of s
      ≡ some (record {
        pid = s.pid;
        parent = s.parent;
        state = exited;
        image = s.image;
        exit_status = s.exit_status;
        syscall_count = s.syscall_count;
      })
unfolding snapshot_of
exited_snapshot s e = rw (exited_from s e) refl

reaped_gone :
    (t : ProcessTable) (pid : ℕ) (s : ProcessSlot) (p : Place t pid s)
    → IsValid t
    → (slot
          (record t { slots = set t.slots p.i (empty_slot t.fd_capacity); count = t.count - 1 })
          pid
        ≡ none)
      × ((t.count - 1) + 1 ≡ t.count)
      × ((q : ℕ)
          → q ≢ pid
          → slot
              (record t { slots = set t.slots p.i (empty_slot t.fd_capacity); count = t.count - 1 })
              q
            ≡ slot t q)
unfolding slot slot_mut empty_slot
reaped_gone t pid s p v =
    let u =
      Unique-set t.slots p.i s (empty_slot t.fd_capacity) v.unique p.at
        (λ j b f l same now. absurd (ground arith)) in
    (
      ground (arith, p.is, lookup-set t.slots p.i s (empty_slot t.fd_capacity) v.unique p.at pid u),
      ground
          (arith, p.is, v.counted, count-set is_live t.slots p.i s (empty_slot t.fd_capacity) p.at),
      λ q other.
          slot_elsewhere t p.i s (empty_slot t.fd_capacity) t.next_pid (t.count - 1) q v.unique p.at
            u (ground (arith, p.is)) (ground arith),
    )

-- `reap` on a valid table removes an exited process, leaves all others, and returns what its slot
-- held: its number, parent, image and count of calls, the state `exited`, and the exit status,
-- which is always there. Or it answers NotFound or InvalidState, for a number not in use or a
-- process that has not exited, and changes nothing.
pub reap-Reaped : (t : ProcessTable) (pid : ℕ) → IsValid t → Reaped t pid (reap t pid)
unfolding reap reap_slot
reap-Reaped t pid v = elim (Option-cases (slot t pid)) [
  | inl gone ↦ rw (slot_in-missing is_exited t pid gone) (missing gone)
  | inr (s, found) ↦
      let p = slot-Place t pid s found in
      elim (Bool-cases (is_exited s)) [
        | inr lives ↦
            rw (slot_in-Place is_exited t pid s p, lives)
              (alive s found (λ e. absurd (ground arith)))
        | inl passes ↦
            let at_valid = All-get_elem? (SlotIsValid t.next_pid) t.slots p.i v.slots_valid p.at in
            let (status, known) = status_of s passes at_valid in
            let (gone, fewer, others) = reaped_gone t pid s p v in
            rw (slot_in-Place is_exited t pid s p, passes, reap_slot, exited_snapshot s passes)
              (buried s _ status
                (record t {
                  slots = set t.slots p.i (empty_slot t.fd_capacity);
                  count = t.count - 1;
                })
                found (exited_from s passes) known (ground (arith, p.is, known)) gone others fewer)
      ]
]
