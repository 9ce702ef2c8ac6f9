-- ===== src/Vfs/Windows/Closing.antt =====
-- Closing one descriptor and all of them, and the copy of the open objects.
use slopos.Base.{
  ℕ, ◌-◌, ◌≡◌, ◌≢◌, refl, some, none, ok, err, arith, false, inl, inr, Option-cases, set, List, [],
  ◌∷◌, ◌++◌, map, take, replicate, filter, count, length, min, get_elem?, get_elem?_bound, Option,
  length-filter, zero, suc,
}
use slopos.Vfs.{bad_file_descriptor}
use slopos.Vfs.Descriptors.{Descriptor, DescriptorObject, FileDescriptorTable, empty_descriptor}
use slopos.Vfs.Descriptors.View.{lookup, lookup_place, lookup-set, update_found, update_missing}
use slopos.Vfs.Windows.{close, close_all, close_each, snapshot_objects, copy_objects}

pub record Closed (t t' : FileDescriptorTable) (fd : ℕ) : Type 0 where
  pub is_free : lookup t' fd ≡ none
  pub others : (g : ℕ) → g ≢ fd → lookup t' g ≡ lookup t g

-- Closing an open number succeeds, frees it and leaves the others; closing it again is refused
-- with BadFileDescriptor and changes nothing.
pub close_twice :
    (t : FileDescriptorTable) (fd : ℕ) (d : Descriptor)
    → lookup t fd ≡ some d
    → (t' : FileDescriptorTable) × (close t fd ≡ (ok tt, t'))
      × Closed t t' fd
      × (close t' fd ≡ (err bad_file_descriptor, t'))
unfolding close
close_twice t fd d l =
    let (e, o, lo) = lookup_place t fd l in
    let bound = get_elem?_bound t.descriptors (fd - 3) e in
    let t' : FileDescriptorTable = record {
      descriptors = set t.descriptors (fd - 3) empty_descriptor;
    } in
    let free : lookup t' fd ≡ none =
      ground (arith, lookup-set t (fd - 3) fd empty_descriptor bound) in
    (
      t',
      update_found t fd (λ _. ok empty_descriptor) d l,
      record {
        is_free = free;
        others = λ g ne. ground (arith, lookup-set t (fd - 3) g empty_descriptor bound);
      },
      update_missing t' fd (λ _. ok empty_descriptor) free,
    )

close_each_count : (ds : List Descriptor) → (close_each ds).1 ≡ count (λ d. d.is_open) ds
unfolding close_each
close_each_count [] = refl
close_each_count (d ∷ ds) = ground (arith, close_each_count ds)

close_each_closed :
    (ds : List Descriptor) (i : ℕ) (d : Descriptor)
    → get_elem? (close_each ds).0 i ≡ some d
    → d.is_open ≡ false
unfolding close_each
close_each_closed [] i d h = cc
close_each_closed (x ∷ ds) zero d h = ground arith
close_each_closed (x ∷ ds) (suc i) d h = close_each_closed ds i d (ground arith)

-- `close_all` returns the number of open descriptors, and no number is open afterwards.
close_all_lem :
    (t : FileDescriptorTable)
    → ((close_all t).0 ≡ count (λ d. d.is_open) t.descriptors)
      × ((fd : ℕ) → lookup (close_all t).1 fd ≡ none)
unfolding close_all
close_all_lem t = (close_each_count t.descriptors, λ fd. gone fd)
  where
    gone : (fd : ℕ) → lookup (record { descriptors = (close_each t.descriptors).0 }) fd ≡ none
    gone fd =
        elim (Option-cases (lookup (record { descriptors = (close_each t.descriptors).0 }) fd)) [
          | inl e ↦ e
          | inr (d, e) ↦
              let (at, o, lo) = lookup_place _ fd e in
              absurd (ground (arith, close_each_closed t.descriptors (fd - 3) d at))
        ]

copy_objects_lem :
    (ds : List Descriptor) (m : ℕ)
    → copy_objects ds (replicate m none) ≡ (
      map (λ (d : Descriptor). some d.object) (take m ds) ++ replicate (m - length ds) none,
      min (length ds) m,
    )
unfolding copy_objects
copy_objects_lem [] zero = ground arith
copy_objects_lem [] (suc m) = ground arith
copy_objects_lem (d ∷ ds) zero = ground arith
copy_objects_lem (d ∷ ds) (suc m) = ground (arith, copy_objects_lem ds m)

-- `snapshot_objects` fills the output with the objects of the open descriptors in table order, as
-- many as fit, and None in every slot that is left, and returns the number copied.
snapshot_objects_lem :
    (t : FileDescriptorTable) (output : List (Option DescriptorObject))
    → let held = filter (λ d. d.is_open) t.descriptors in
      snapshot_objects t output ≡ (
        map (λ (d : Descriptor). some d.object) (take (length output) held)
            ++ replicate (length output - count (λ d. d.is_open) t.descriptors) none,
        min (count (λ d. d.is_open) t.descriptors) (length output),
      )
unfolding snapshot_objects
snapshot_objects_lem t output =
    rw (← length-filter (λ d. d.is_open) t.descriptors)
      (copy_objects_lem (filter (λ d. d.is_open) t.descriptors) (length output))
