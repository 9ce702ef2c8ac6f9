-- ===== src/Vfs/Windows/Calls.antt =====
-- The calls that change a descriptor table, as one step function, and its invariant.
use slopos.Base.{
  ℕ, ◌+◌, ◌≤◌, ◌≡◌, ◌≢◌, refl, some, Result, ok, err, arith, length, length-set, u32_mod, inl, inr,
  Option-cases, ◌-◌, List, [], ◌∷◌, All-replicate, length-replicate, ◌∙◌,
}
use slopos.Vfs.{VfsError}
use slopos.Vfs.Descriptors.{
  FileNode, DescriptorObject, file, desktop_events, read_only, AccessMode, Descriptor,
  FileDescriptorTable, new, opened_at, fill_slot, start_at, open_object, open_desktop_events,
  update, write_back, empty_descriptor,
}
use slopos.Vfs.Descriptors.View.{lookup, update_found, update_missing}
use slopos.Vfs.Windows.{
  set_size, advance, seek, close, advance_object, set_object_offset, close_all, close_each, resized,
  advanced, sought, placed, advanced_object,
}
use slopos.Vfs.Windows.Offsets.{
  Fit, Fits, open_object-Fit, open_desktop_events-Fit, close_each-Fit, update-Fit, resized-Fits,
  advanced-Fits, sought-Fits, placed-Fits, closed-Fits, advanced_object-Fits,
}

-- The calls that change a table.
pub data Call : Type 0 where
  opens : DescriptorObject → AccessMode → Call
  opens_events : ℕ → Call
  sizes advances seeks places : ℕ → ℕ → Call
  advances_object : ℕ → ℕ → ℕ → Call
  closes : ℕ → Call
  closes_all : Call

unfoldable pub step : FileDescriptorTable → Call → FileDescriptorTable
step t (opens object mode) = (open_object t object mode).1
step t (opens_events generation) = (open_desktop_events t generation).1
step t (sizes fd size) = (set_size t fd size).1
step t (advances fd length) = (advance t fd length).1
step t (seeks fd offset) = (seek t fd offset).1
step t (places fd offset) = (set_object_offset t fd offset).1
step t (advances_object fd length size) = (advance_object t fd length size).1
step t (closes fd) = (close t fd).1
step t closes_all = (close_all t).1

-- `advance_object` takes the size from its caller, so it must not be called on a file.
abbrev pub Allowed : FileDescriptorTable → Call → Type 0
Allowed t (advances_object fd length size) =
    (node : FileNode) (offset : ℕ) (mode : AccessMode)
    → lookup t fd ≢ some (opened_at (file node) offset mode)
Allowed t _ = Unit

-- Every file offset is within its file, and every number of the table is a u32.
pub record IsValid (t : FileDescriptorTable) : Type 0 where
  pub fits : Fit t
  pub numbered : 3 + length t.descriptors ≤ u32_mod

pub new-IsValid : (n : ℕ) → 3 + n ≤ u32_mod → IsValid (new n)
unfolding new
new-IsValid n h = record {
  fits = All-replicate (λ d. Fits d.object d.offset) n empty_descriptor (omega arith);
  numbered = omega (arith, length-replicate n empty_descriptor);
}

length-update :
    (t : FileDescriptorTable) (fd : ℕ) (body : Descriptor → Result VfsError Descriptor)
    → length (update t fd body).1.descriptors ≡ length t.descriptors
length-update t fd body = elim (Option-cases (lookup t fd)) [
  | inl e ↦ rw (update_missing t fd body e)
  | inr (d, e) ↦ rw (update_found t fd body d e) (written (body d))
]
  where
    written :
        (r : Result VfsError Descriptor)
        → length (write_back t (fd - 3) r).1.descriptors ≡ length t.descriptors
    written (ok d) = length-set t.descriptors (fd - 3) d
    written (err e) = refl

length-fill_slot :
    (t : FileDescriptorTable) (d : Descriptor) (slot : Result VfsError (ℕ × ℕ))
    → length (fill_slot t d slot).1.descriptors ≡ length t.descriptors
unfolding fill_slot
length-fill_slot t d (ok (index, fd)) = length-set t.descriptors index d
length-fill_slot t d (err e) = refl

length-start_at :
    (generation : ℕ) (r : Result VfsError ℕ) (t : FileDescriptorTable)
    → length (start_at generation r t).1.descriptors ≡ length t.descriptors
unfolding start_at
length-start_at generation (ok fd) t =
    length-update t fd (λ d. ok (record d { offset = generation }))
length-start_at generation (err e) t = refl

length-close_each : (ds : List Descriptor) → length (close_each ds).0 ≡ length ds
unfolding close_each
length-close_each [] = refl
length-close_each (d ∷ ds) = ground (arith, length-close_each ds)

-- No call changes the capacity.
pub length-step :
    (t : FileDescriptorTable) (c : Call) → length (step t c).descriptors ≡ length t.descriptors
unfolding step set_size advance seek close advance_object set_object_offset close_all open_object
    open_desktop_events
length-step t (opens object mode) = length-fill_slot t _ _
length-step t (opens_events generation) =
    length-start_at generation (open_object t desktop_events read_only).0 _ ∙ length-fill_slot t _ _
length-step t (sizes fd size) = length-update t fd _
length-step t (advances fd n) = length-update t fd _
length-step t (seeks fd offset) = length-update t fd _
length-step t (places fd offset) = length-update t fd _
length-step t (advances_object fd n size) = length-update t fd _
length-step t (closes fd) = length-update t fd (λ _. ok empty_descriptor)
length-step t closes_all = length-close_each t.descriptors

step-Fit : (t : FileDescriptorTable) (c : Call) → Allowed t c → IsValid t → Fit (step t c)
unfolding step set_size advance seek close advance_object set_object_offset close_all
step-Fit t (opens object mode) a v = open_object-Fit t object mode v.fits
step-Fit t (opens_events generation) a v = open_desktop_events-Fit t generation v.numbered v.fits
step-Fit t (sizes fd size) a v =
    update-Fit t fd (resized size) (λ d e _ _ h. resized-Fits size d e h) v.fits
step-Fit t (advances fd n) a v =
    update-Fit t fd (advanced n) (λ d e _ _ h. advanced-Fits n d e h) v.fits
step-Fit t (seeks fd n) a v = update-Fit t fd (sought n) (λ d e _ _ h. sought-Fits n d e h) v.fits
step-Fit t (places fd n) a v = update-Fit t fd (placed n) (λ d e _ _ h. placed-Fits n d e h) v.fits
step-Fit t (advances_object fd n size) a v =
    update-Fit t fd (advanced_object n size)
      (λ d e l _ h. advanced_object-Fits t fd n size d e a l h) v.fits
step-Fit t (closes fd) a v =
    update-Fit t fd (λ _. ok empty_descriptor) (λ d e _ _ h. closed-Fits d e h) v.fits
step-Fit t closes_all a v = close_each-Fit t.descriptors v.fits

-- Every call keeps each file offset within its file and the numbers of the table within a u32; the
-- one premise is that `advance_object`, which takes the size from its caller, is not called on a
-- file.
pub step-IsValid :
    (t : FileDescriptorTable) (c : Call) → Allowed t c → IsValid t → IsValid (step t c)
step-IsValid t c a v = record {
  fits = step-Fit t c a v;
  numbered = omega (arith, length-step t c, v.numbered);
}
