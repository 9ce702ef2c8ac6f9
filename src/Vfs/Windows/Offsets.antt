-- ===== src/Vfs/Windows/Offsets.antt =====
-- The offset of a file descriptor and the end of its file.
use slopos.Vfs.Descriptors.{
  FileNode, DescriptorObject, file, desktop_events, AccessMode, read_only, Descriptor,
  FileDescriptorTable, fill_slot, open_object, open_desktop_events, update, write_back,
  empty_descriptor, opened_at, start_at,
}
use slopos.Base.{
  ℕ, ◌+◌, ◌≤◌, ◌≡◌, refl, some, Result, ok, err, arith, length, All, All-set, All-get_elem?, ◌≢◌,
  Option-cases, inl, inr, ◌-◌, subst, u32_mod, List, [], ◌∷◌,
}
use slopos.Vfs.{VfsError}
use slopos.Vfs.Descriptors.View.{lookup, lookup_place, update_found, update_missing}
use slopos.Vfs.Descriptors.Allocation.{open_object-Allocates}
use slopos.Vfs.Windows.{resized, advanced, sought, advanced_object, placed, close_each}

abbrev pub Fits : DescriptorObject → ℕ → Type 0
Fits (file node) offset = offset ≤ node.size
Fits _ offset = Unit

abbrev pub Fit : FileDescriptorTable → Type 0
Fit t = All (λ d. Fits d.object d.offset) t.descriptors

-- A body that keeps one descriptor in range keeps the table in range.
pub update-Fit :
    (t : FileDescriptorTable) (fd : ℕ) (body : Descriptor → Result VfsError Descriptor)
    → ((d e : Descriptor)
        → lookup t fd ≡ some d
        → Fits d.object d.offset
        → body d ≡ ok e
        → Fits e.object e.offset)
    → Fit t
    → Fit (update t fd body).1
update-Fit t fd body keep v = elim (Option-cases (lookup t fd)) [
  | inl e ↦ rw (update_missing t fd body e) v
  | inr (d, e) ↦
      rw (update_found t fd body d e) (written (body d) (λ e' h. keep d e' e (held d e) h))
]
  where
    held : (d : Descriptor) → lookup t fd ≡ some d → Fits d.object d.offset
    held d e =
        All-get_elem? (λ d. Fits d.object d.offset) t.descriptors (fd - 3) v (lookup_place t fd e).0

    written :
        (r : Result VfsError Descriptor)
        → ((d : Descriptor) → r ≡ ok d → Fits d.object d.offset)
        → Fit (write_back t (fd - 3) r).1
    written (ok d) h = All-set (λ d. Fits d.object d.offset) t.descriptors (fd - 3) d v (h d refl)
    written (err e) h = v

pub fill_slot-Fit :
    (t : FileDescriptorTable) (d : Descriptor) (slot : Result VfsError (ℕ × ℕ))
    → Fits d.object d.offset
    → Fit t
    → Fit (fill_slot t d slot).1
unfolding fill_slot
fill_slot-Fit t d (ok (index, fd)) f v =
    All-set (λ d. Fits d.object d.offset) t.descriptors index d v f
fill_slot-Fit t d (err e) f v = v

pub open_object-Fit :
    (t : FileDescriptorTable) (object : DescriptorObject) (mode : AccessMode)
    → Fit t
    → Fit (open_object t object mode).1
unfolding open_object
open_object-Fit t (file node) mode v = fill_slot-Fit t _ _ (omega arith) v
open_object-Fit t _ mode v = fill_slot-Fit t _ _ tt v

pub close_each-Fit :
    (ds : List Descriptor)
    → All (λ d. Fits d.object d.offset) ds
    → All (λ d. Fits d.object d.offset) (close_each ds).0
unfolding close_each
close_each-Fit [] v = v
close_each-Fit (d ∷ ds) v = ground (arith, close_each-Fit ds v.1)

pub resized-Fits : (size : ℕ) (d e : Descriptor) → resized size d ≡ ok e → Fits e.object e.offset
unfolding resized
resized-Fits size d e h = ground arith

pub advanced-Fits : (n : ℕ) (d e : Descriptor) → advanced n d ≡ ok e → Fits e.object e.offset
unfolding advanced
advanced-Fits n d e h = ground arith

pub sought-Fits : (n : ℕ) (d e : Descriptor) → sought n d ≡ ok e → Fits e.object e.offset
unfolding sought
sought-Fits n d e h = ground arith

pub placed-Fits : (n : ℕ) (d e : Descriptor) → placed n d ≡ ok e → Fits e.object e.offset
unfolding placed
placed-Fits n d e h = ground arith

pub closed-Fits :
    (d e : Descriptor)
    → ◌≡◌ {A = Result VfsError Descriptor} (ok empty_descriptor) (ok e)
    → Fits e.object e.offset
closed-Fits d e h = ground arith

unchanged_object :
    (n size : ℕ) (d e : Descriptor) → advanced_object n size d ≡ ok e → e.object ≡ d.object
unfolding advanced_object
unchanged_object n size d e h = ground arith

no_file-Fits :
    (object : DescriptorObject) (offset : ℕ)
    → ((node : FileNode) → object ≢ file node)
    → Fits object offset
no_file-Fits (file node) offset h = absurd (h node refl)
no_file-Fits _ offset h = tt

pub advanced_object-Fits :
    (t : FileDescriptorTable) (fd n size : ℕ) (d e : Descriptor)
    → ((node : FileNode) (offset : ℕ) (mode : AccessMode)
        → lookup t fd ≢ some (opened_at (file node) offset mode))
    → lookup t fd ≡ some d
    → advanced_object n size d ≡ ok e
    → Fits e.object e.offset
advanced_object-Fits t fd n size d e a l h = no_file-Fits e.object e.offset (λ node f.
    a node d.offset d.access_mode
      (ground (arith, l, f, (lookup_place t fd l).1, unchanged_object n size d e h)))

start_at-Fit :
    (t : FileDescriptorTable) (fd generation : ℕ)
    → lookup t fd ≡ some (opened_at desktop_events 0 read_only)
    → Fit t
    → Fit (start_at generation (ok fd) t).1
unfolding start_at
start_at-Fit t fd generation there v =
    update-Fit t fd (λ d. ok (record d { offset = generation }))
      (λ d e l f h. no_file-Fits e.object e.offset (λ node g. ground (arith, there, l, h, g))) v

pub open_desktop_events-Fit :
    (t : FileDescriptorTable) (generation : ℕ)
    → 3 + length t.descriptors ≤ u32_mod
    → Fit t
    → Fit (open_desktop_events t generation).1
unfolding open_desktop_events
open_desktop_events-Fit t generation small v =
    elim (open_object-Allocates t desktop_events read_only small) [
      | inl (e, full) ↦ rw (e, start_at) v
      | inr (fd, t', e, o) ↦ rw e (
          start_at-Fit t' fd generation o.is_there (
            subst (λ (r : Result VfsError ℕ × FileDescriptorTable). Fit r.1) e
              (open_object-Fit t desktop_events read_only v)))
    ]
