-- ===== src/Process/Birth.antt =====
-- The start of a process: what `spawn` makes of a number.
use slopos.Base.{
  ℕ, ◌+◌, ◌-◌, ◌≤◌, ◌≡◌, ◌≢◌, refl, true, false, Option, some, none, get_elem?, set, arith, inl,
  inr, Option-cases, Bool-cases, Result, ok, err, find, find-none, u32_mod, Result-cases,
  All-get_elem?, get_elem?_bound, get_elem?-set, subst, ap, length, length-replicate,
  get_elem?-replicate,
}
use slopos.Process.{
  ProcessError, not_found, invalid_image, table_full, pid_exhausted, ProcessImage, validate_image,
  ready,
}
use slopos.Vfs.Descriptors
use slopos.Vfs.Descriptors.{empty_descriptor}
use slopos.Vfs.Descriptors.View.{lookup}
use slopos.Process.Table.{
  ProcessSlot, ProcessTable, is_live, is_free, has_parent, slot, slot_mut, spawn, spawn_slot,
  fill_slot, new_slot,
}
use slopos.Process.Table.Lookup.{Unique-set, lookup_nowhere, lookup_at}
use slopos.Process.Effects.{spawn_slot-Passed}
use slopos.Process.LifeCycle.{slot_elsewhere}
use slopos.Process.Invariant.{IsValid, SlotIsValid}

-- What is wrong when `spawn` fails, in the order of its checks.
pub data SpawnFailure (t : ProcessTable) (parent : Option ℕ) (image : ProcessImage)
    : ProcessError → Type 0 where
  bad_image : validate_image image ≡ err invalid_image → SpawnFailure t parent image invalid_image
  no_parent : (p : ℕ) → parent ≡ some p → slot t p ≡ none → SpawnFailure t parent image not_found
  no_slot :
      ((i : ℕ) (s : ProcessSlot) → get_elem? t.slots i ≡ some s → is_live s ≡ true)
      → SpawnFailure t parent image table_full
  no_number : u32_mod ≤ t.next_pid + 1 → SpawnFailure t parent image pid_exhausted

-- A process that has not run yet: ready, with nothing counted and no file open.
pub record Newborn (t : ProcessTable) (parent : Option ℕ) (image : ProcessImage) (s : ProcessSlot)
    : Type 0 where
  pub number : s.pid ≡ t.next_pid
  pub state : s.state ≡ some ready
  pub child_of : s.parent ≡ parent
  pub runs : s.image ≡ image
  pub unsettled : s.exit_status ≡ none
  pub no_calls : s.syscall_count ≡ 0
  pub room : length s.descriptors.descriptors ≡ t.fd_capacity
  pub no_files : (fd : ℕ) → lookup s.descriptors fd ≡ none

pub data Spawned (t : ProcessTable) (parent : Option ℕ) (image : ProcessImage)
    : Result ProcessError ℕ × ProcessTable → Type 0 where
  fails : (e : ProcessError) → SpawnFailure t parent image e → Spawned t parent image (err e, t)
  born :
      (s : ProcessSlot) (t' : ProcessTable)
      → slot t t.next_pid ≡ none
      → slot t' t.next_pid ≡ some s
      → validate_image image ≡ ok tt
      → ((p : ℕ) → parent ≡ some p → (above : ProcessSlot) × (slot t p ≡ some above))
      → Newborn t parent image s
      → ((q : ℕ) → q ≢ t.next_pid → slot t' q ≡ slot t q)
      → t'.next_pid ≡ t.next_pid + 1
      → t'.count ≡ t.count + 1
      → Spawned t parent image (ok t.next_pid, t')

validate_image-err :
    (image : ProcessImage) (e : ProcessError) → validate_image image ≡ err e → e ≡ invalid_image
unfolding validate_image
validate_image-err image e h = ground arith

orphan_parent :
    (t : ProcessTable) (parent : Option ℕ)
    → has_parent t parent ≡ false
    → (p : ℕ) × (parent ≡ some p) × (slot t p ≡ none)
orphan_parent t none h = absurd (ground arith)
orphan_parent t (some p) h = elim (Option-cases (slot t p)) [
  | inl gone ↦ (p, refl, gone)
  | inr (s, e) ↦ absurd (ground arith)
]

living_parent :
    (t : ProcessTable) (parent : Option ℕ)
    → has_parent t parent ≡ true
    → (p : ℕ) → parent ≡ some p
    → (above : ProcessSlot) × (slot t p ≡ some above)
living_parent t parent h p named = elim (Option-cases (slot t p)) [
  | inl gone ↦ absurd (ground arith)
  | inr found ↦ found
]

spawn_slot-SpawnFailure :
    (t : ProcessTable) (parent : Option ℕ) (image : ProcessImage) (e : ProcessError)
    → spawn_slot t parent image ≡ err e
    → SpawnFailure t parent image e
unfolding spawn_slot
spawn_slot-SpawnFailure t parent image e h = elim (Result-cases (validate_image image)) [
  | inr (bad, v) ↦
      let same = validate_image-err image bad v in
      subst (SpawnFailure t parent image) (ground (arith, same)) (bad_image (rw v (ap err same)))
  | inl (u, v) ↦ elim (Bool-cases (has_parent t parent)) [
    | inr orphan ↦
        let (p, named, gone) = orphan_parent t parent orphan in
        subst (SpawnFailure t parent image) (ground arith) (no_parent p named gone)
    | inl lives ↦ elim (Option-cases (find is_free t.slots)) [
      | inl full ↦
          subst (SpawnFailure t parent image) (ground arith)
            (no_slot (λ i s at. ground (arith, find-none is_free t.slots i s full at)))
      | inr (free, f) ↦
          subst (SpawnFailure t parent image) (ground arith) (no_number (ground arith))
    ]
  ]
]

-- The next number is not in use.
next_pid_fresh : (t : ProcessTable) → IsValid t → slot t t.next_pid ≡ none
unfolding slot slot_mut
next_pid_fresh t v = lookup_nowhere t.next_pid t.slots (λ i s at.
    ground (arith, (All-get_elem? (SlotIsValid t.next_pid) t.slots i v.slots_valid at).numbered))

new_slot-Newborn :
    (t : ProcessTable) (parent : Option ℕ) (image : ProcessImage)
    → Newborn t parent image (new_slot t parent image)
unfolding new_slot Descriptors.new lookup
new_slot-Newborn t parent image = record {
  number = refl;
  state = refl;
  child_of = refl;
  runs = refl;
  unsettled = refl;
  no_calls = refl;
  room = length-replicate t.fd_capacity empty_descriptor;
  no_files = λ fd. ground (arith, get_elem?-replicate t.fd_capacity (fd - 3) empty_descriptor);
}

born_found :
    (t : ProcessTable) (parent : Option ℕ) (image : ProcessImage) (i : ℕ) (old : ProcessSlot)
    (next : ℕ)
    → IsValid t
    → get_elem? t.slots i ≡ some old
    → is_live old ≡ false
    → (t' : ProcessTable)
    → t' ≡ record t {
      slots = set t.slots i (new_slot t parent image);
      next_pid = next;
      count = t.count + 1;
    }
    → (slot t' t.next_pid ≡ some (new_slot t parent image))
      × ((q : ℕ) → q ≢ t.next_pid → slot t' q ≡ slot t q)
unfolding slot slot_mut new_slot
born_found t parent image i old next v at free t' same =
    let new = new_slot t parent image in
    let u = Unique-set t.slots i old new v.unique at (λ j b f live same now. absurd (
      ground
        (arith, (All-get_elem? (SlotIsValid t.next_pid) t.slots j v.slots_valid f).numbered))) in
    rw same (
      lookup_at t.next_pid (set t.slots i new) i new u
          (ground (arith, get_elem?-set t.slots i i new, get_elem?_bound t.slots i at))
          (ground arith),
      λ q other.
          slot_elsewhere t i old new next (t.count + 1) q v.unique at u (ground arith)
            (ground arith),
    )

-- `spawn` on a valid table with a good image and a parent that is there, if one is named, makes a
-- process of the next number, which was not in use: it is ready, has the parent and the image, no
-- exit status, no counted calls and no open file, and all other processes stay. Or it returns the
-- error of the check that fails (a bad image, a missing parent, no free slot, no number left) and
-- leaves the table.
pub spawn-Spawned :
    (t : ProcessTable) (parent : Option ℕ) (image : ProcessImage)
    → IsValid t
    → Spawned t parent image (spawn t parent image)
unfolding spawn fill_slot
spawn-Spawned t parent image v = elim (Result-cases (spawn_slot t parent image)) [
  | inr (e, h) ↦ rw (h, fill_slot) (fails e (spawn_slot-SpawnFailure t parent image e h))
  | inl ((i, next), h) ↦
      let p = spawn_slot-Passed t parent image i next h in
      rw (h, fill_slot)
        (born (new_slot t parent image)
          (record t {
            slots = set t.slots i (new_slot t parent image);
            next_pid = next;
            count = t.count + 1;
          })
          (next_pid_fresh t v)
          (born_found t parent image i p.old next v p.at (ground (arith, p.free)) _ refl).0
          p.image_valid (living_parent t parent p.parent_lives) (new_slot-Newborn t parent image)
          (born_found t parent image i p.old next v p.at (ground (arith, p.free)) _ refl).1
          p.following refl)
]
