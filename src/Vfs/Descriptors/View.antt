-- ===== src/Vfs/Descriptors/View.antt =====
-- A descriptor table as a client sees it: a partial map from descriptor numbers.
use slopos.Base.{
  ℕ, ◌+◌, ◌-◌, ◌≤◌, ◌<◌, ◌≡◌, true, false, Option, none, some, Result, err, arith, if◌then◌else◌,
  ◌==◌, get_elem?, set, length, keep_if, to_option, get_elem?-set, get_elem?_bound,
}
use slopos.Vfs.{VfsError, bad_file_descriptor}
use slopos.Vfs.Descriptors.{Descriptor, FileDescriptorTable, descriptor, update, write_back}

-- The open descriptor of a number.
unfoldable pub lookup : FileDescriptorTable → ℕ → Option Descriptor
unfolding descriptor
lookup t fd = to_option (descriptor t fd)

pub lookup_place :
    (t : FileDescriptorTable) (fd : ℕ) {d : Descriptor}
    → lookup t fd ≡ some d
    → (get_elem? t.descriptors (fd - 3) ≡ some d) × (d.is_open ≡ true) × (3 ≤ fd)
unfolding lookup
lookup_place t fd h = ground arith

pub lookup_open :
    (t : FileDescriptorTable) (i : ℕ) (d : Descriptor)
    → get_elem? t.descriptors i ≡ some d
    → d.is_open ≡ true
    → lookup t (3 + i) ≡ some d
unfolding lookup
lookup_open t i d h o = ground arith

pub update_found :
    (t : FileDescriptorTable) (fd : ℕ) (body : Descriptor → Result VfsError Descriptor)
    (d : Descriptor)
    → lookup t fd ≡ some d
    → update t fd body ≡ write_back t (fd - 3) (body d)
unfolding lookup update
update_found t fd body d h = ground arith

pub update_missing :
    (t : FileDescriptorTable) (fd : ℕ) (body : Descriptor → Result VfsError Descriptor)
    → lookup t fd ≡ none
    → update t fd body ≡ (err bad_file_descriptor, t)
unfolding lookup update
update_missing t fd body h = ground arith

-- A write to one place of the array shows at its number alone.
pub lookup-set :
    (t : FileDescriptorTable) (i g : ℕ) (v : Descriptor)
    → i < length t.descriptors
    → lookup (record { descriptors = set t.descriptors i v }) g
      ≡ (if 3 + i == g then keep_if (λ d. d.is_open) (some v) else lookup t g)
unfolding lookup
lookup-set t i g v h = ground (arith, get_elem?-set t.descriptors i (g - 3) v)

pub lookup_closed :
    (t : FileDescriptorTable) (i : ℕ) (d : Descriptor)
    → get_elem? t.descriptors i ≡ some d
    → d.is_open ≡ false
    → lookup t (3 + i) ≡ none
unfolding lookup
lookup_closed t i d h o = ground arith

-- A table whose descriptor at an open number is replaced by another open one.
pub rewritten :
    (t : FileDescriptorTable) (fd : ℕ) (d d' : Descriptor)
    → lookup t fd ≡ some d
    → d'.is_open ≡ d.is_open
    → lookup (record { descriptors = set t.descriptors (fd - 3) d' }) fd ≡ some d'
rewritten t fd d d' l same =
    let (e, o, lo) = lookup_place t fd l in
    ground (arith, lookup-set t (fd - 3) fd d' (get_elem?_bound t.descriptors (fd - 3) e))
