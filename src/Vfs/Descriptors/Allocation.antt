-- ===== src/Vfs/Descriptors/Allocation.antt =====
-- Opening and the free numbers of a descriptor table.
use slopos.Base.{
  ℕ, ◌+◌, ◌-◌, ◌≤◌, ◌<◌, ◌≡◌, refl, true, not, none, some, Result, ok, err, arith, ◌==◌, get_elem?,
  set, length, ◌⊎◌, inl, inr, ◌≢◌, ◌∙◌, Option-cases, position, FirstAt, position-FirstAt,
  position-none, get_elem?-some, get_elem?_bound, u32_mod, length-set, keep_if, if◌then◌else◌,
}
use slopos.Vfs.{VfsError, file_table_full}
use slopos.Vfs.Descriptors.{
  Descriptor, DescriptorObject, AccessMode, FileDescriptorTable, open_object, desktop_events,
  opened_at, read_only, open_desktop_events, start_at,
}
use slopos.Vfs.Descriptors.View.{lookup, lookup_closed, lookup-set, update_found}

pub record Opened (t t' : FileDescriptorTable) (fd : ℕ) (d : Descriptor) : Type 0 where
  pub was_free : lookup t fd ≡ none
  pub is_there : lookup t' fd ≡ some d
  pub others : (g : ℕ) → g ≢ fd → lookup t' g ≡ lookup t g
  pub lowest : (g : ℕ) → 3 ≤ g → g < fd → lookup t g ≢ none
  pub in_range : (3 ≤ fd) × (fd < 3 + length t.descriptors)
  pub same_size : length t'.descriptors ≡ length t.descriptors

pub record IsFull (t : FileDescriptorTable) : Type 0 where
  pub taken : (g : ℕ) → 3 ≤ g → g < 3 + length t.descriptors → lookup t g ≢ none

abbrev pub Allocates :
    FileDescriptorTable → Descriptor → Result VfsError ℕ × FileDescriptorTable → Type 0
Allocates t d r =
    ((r ≡ (err file_table_full, t)) × IsFull t)
    ⊎ ((fd : ℕ) × (t' : FileDescriptorTable) × (r ≡ (ok fd, t')) × Opened t t' fd d)

-- An entry of the array that is not closed shows in the view.
open_entry :
    (t : FileDescriptorTable) (g : ℕ) (d : Descriptor)
    → 3 ≤ g
    → get_elem? t.descriptors (g - 3) ≡ some d
    → d.is_open ≡ true
    → lookup t g ≡ some d
unfolding lookup
open_entry t g d h e o = ground arith

IsFull-position :
    (t : FileDescriptorTable) → position (λ d. not d.is_open) t.descriptors ≡ none → IsFull t
IsFull-position t h = record { taken = at }
  where
    at : (g : ℕ) → 3 ≤ g → g < 3 + length t.descriptors → lookup t g ≢ none
    at g lo hi =
        let (d, e) = get_elem?-some t.descriptors (g - 3) (omega arith) in
        let closed = position-none (λ d. not d.is_open) t.descriptors (g - 3) d h e in
        ground (arith, open_entry t g d lo e)

module _ (t : FileDescriptorTable) (i : ℕ) (v : Descriptor)
    (first : FirstAt (λ d. not d.is_open) t.descriptors i) (fresh : v.is_open ≡ true) where
  stored : FileDescriptorTable
  stored = record { descriptors = set t.descriptors i v }

  Opened-stored : Opened t stored (3 + i) v
  unfolding stored
  Opened-stored = record {
    was_free = lookup_closed t i first.value first.found (ground (arith, first.holds));
    is_there = ground (arith, lookup-set t i (3 + i) v bound);
    others = λ g ne. ground (arith, lookup-set t i g v bound);
    lowest = occupied;
    in_range = (omega arith, omega (arith, bound));
    same_size = length-set t.descriptors i v;
  }
    where
      bound : i < length t.descriptors
      bound = get_elem?_bound t.descriptors i first.found

      occupied : (g : ℕ) → 3 ≤ g → g < 3 + i → lookup t g ≢ none
      occupied g lo hi =
          let (d, e) = get_elem?-some t.descriptors (g - 3) (omega (arith, bound)) in
          ground (arith, open_entry t g d lo e, first.before (g - 3) d (omega arith) e)

-- In a table whose numbers are u32 values, `open_object` takes the lowest free number and changes
-- nothing at the others, or all numbers are taken, it fails with FileTableFull and the table stays
-- as it was.
pub open_object-Allocates :
    (t : FileDescriptorTable) (object : DescriptorObject) (mode : AccessMode)
    → 3 + length t.descriptors ≤ u32_mod
    → Allocates t (opened_at object 0 mode) (open_object t object mode)
unfolding open_object stored
open_object-Allocates t object mode small =
    elim (Option-cases (position (λ d. not d.is_open) t.descriptors)) [
      | inl e ↦ inl (ground arith, IsFull-position t e)
      | inr (i, e) ↦
          let first = position-FirstAt (λ d. not d.is_open) t.descriptors i e in
          let bound = get_elem?_bound t.descriptors i first.found in
          inr (
            3 + i,
            stored t i (opened_at object 0 mode) first refl,
            ground (arith, bound),
            Opened-stored t i (opened_at object 0 mode) first refl,
          )
    ]

-- The second step of `open_desktop_events`: the fresh descriptor is moved to its generation.
start_at-Opened :
    (t t' : FileDescriptorTable) (fd generation : ℕ) (d : Descriptor)
    → d.is_open ≡ true
    → Opened t t' fd d
    → (t'' : FileDescriptorTable) × (start_at generation (ok fd) t' ≡ (ok fd, t''))
      × Opened t t'' fd (record d { offset = generation })
unfolding start_at
start_at-Opened t t' fd generation d fresh o = (
  t'',
  rw (update_found t' fd (λ d. ok (record d { offset = generation })) d o.is_there),
  record {
    was_free = o.was_free;
    is_there = ground (arith, shown fd);
    others = λ g ne. ground (arith, shown g, o.others g ne);
    lowest = o.lowest;
    in_range = o.in_range;
    same_size = length-set t'.descriptors (fd - 3) (record d { offset = generation }) ∙ o.same_size;
  },
)
  where
    t'' : FileDescriptorTable
    t'' = record { descriptors = set t'.descriptors (fd - 3) (record d { offset = generation }) }

    shown :
        (g : ℕ)
        → lookup t'' g ≡ (
            if 3 + (fd - 3) == g
            then keep_if (λ d. d.is_open) (some (record d { offset = generation }))
            else lookup t' g)
    shown g =
        lookup-set t' (fd - 3) g (record d { offset = generation })
          (omega (arith, o.in_range.0, o.in_range.1, o.same_size))

-- In a table whose numbers are u32 values, `open_desktop_events` takes the lowest free number for
-- a read-only event stream at the given generation, or the table is full and stays as it was.
open_desktop_events-Allocates :
    (t : FileDescriptorTable) (generation : ℕ)
    → 3 + length t.descriptors ≤ u32_mod
    → Allocates t (opened_at desktop_events generation read_only) (open_desktop_events t generation)
unfolding open_desktop_events start_at
open_desktop_events-Allocates t generation small =
    elim (open_object-Allocates t desktop_events read_only small) [
      | inl (e, full) ↦ inl (rw (e, start_at), full)
      | inr (fd, t', e, o) ↦
          let (t'', e', o') =
            start_at-Opened t t' fd generation (opened_at desktop_events 0 read_only) refl o in
          inr (fd, t'', rw e e', o')
    ]
