-- ===== src/Vfs/Windows/Transfers.antt =====
-- Windows and the file that they are on, and a window after a transfer.
use slopos.Vfs.Windows.{read_window, write_window, advance, advanced, window_at}
use slopos.Vfs.Descriptors.{
  FileNode, file, Descriptor, FileDescriptorTable, Window, readable, writable, AccessMode,
  write_back, as_file,
}
use slopos.Base.{
  ◌>>=◌, ◌>>◌, ensure, set, ℕ, ◌+◌, ◌-◌, ◌≤◌, ◌<◌, ◌≡◌, ◌⊎◌, refl, true, some, Result, ok, arith,
  min, u64_mod, Bool, inl, inr, Option-cases, All-get_elem?,
}
use slopos.Vfs.{VfsError, not_readable, not_writable}
use slopos.Vfs.Descriptors.View.{lookup, lookup_place, rewritten, update_found}
use slopos.Vfs.Windows.Offsets.{Fits}
use slopos.Vfs.Windows.Calls.{IsValid}

-- A window on the file behind an open descriptor: from its offset, at most what was asked for, and
-- short only at the end of the file.
pub record WindowOn (t : FileDescriptorTable) (fd requested : ℕ) (w : Window) : Type 0 where
  pub source : Descriptor
  pub found : lookup t fd ≡ some source
  pub node : source.object ≡ file w.node
  pub start : w.offset ≡ source.offset
  pub inside : w.offset + w.length ≤ w.node.size
  pub bounded : w.length ≤ requested
  pub short_at_end : (w.length ≡ requested) ⊎ (w.offset + w.length ≡ w.node.size)

valid_offset :
    (t : FileDescriptorTable) (fd : ℕ) (d : Descriptor) (node : FileNode)
    → IsValid t
    → lookup t fd ≡ some d
    → d.object ≡ file node
    → d.offset ≤ node.size
valid_offset t fd d node v l o = ground (
  arith,
  o,
  All-get_elem? (λ d. Fits d.object d.offset) t.descriptors (fd - 3) v.fits (lookup_place t fd l).0,
)

-- The rest of `read_window` and `write_window` once the descriptor is found.
abbrev transfer : Descriptor → Bool → VfsError → ℕ → Result VfsError Window
transfer d permitted e n = do ensure permitted e; node ← as_file d.object; ok (window_at d node n)

module _ (t : FileDescriptorTable) (fd n : ℕ) (w : Window) where
  transfer-WindowOn :
      (d : Descriptor) (permitted : AccessMode → Bool) (e : VfsError)
      → IsValid t
      → lookup t fd ≡ some d
      → transfer d (permitted d.access_mode) e n ≡ ok w
      → (on : WindowOn t fd n w) × (permitted on.source.access_mode ≡ true)
  unfolding as_file
  transfer-WindowOn d permitted e v l h = (
    record {
      source = d;
      found = l;
      node = is_node;
      start = ground arith;
      inside = ground (arith, within);
      bounded = ground arith;
      short_at_end = ground (arith, within);
    },
    ground arith,
  )
    where
      is_node : d.object ≡ file w.node
      is_node = ground arith

      within : d.offset ≤ w.node.size
      within = valid_offset t fd d w.node v l is_node

  -- The same, with the mode that the descriptor had.
  read_window-transfer :
      IsValid t
      → read_window t fd n ≡ ok w
      → (on : WindowOn t fd n w) × (readable on.source.access_mode ≡ true)
  unfolding read_window lookup
  read_window-transfer v h = elim (Option-cases (lookup t fd)) [
    | inl e ↦ absurd (ground arith)
    | inr (d, e) ↦ transfer-WindowOn d readable not_readable v e (ground arith)
  ]

  -- In a valid table, a window that `read_window` returns is on the file of the open descriptor,
  -- starts at its offset, lies within the file, is at most as long as requested, and is shorter
  -- only if it ends at the end of the file.
  pub read_window-WindowOn : IsValid t → read_window t fd n ≡ ok w → WindowOn t fd n w
  read_window-WindowOn v h = (read_window-transfer v h).0

  -- So does a write window.
  pub write_window-WindowOn : IsValid t → write_window t fd n ≡ ok w → WindowOn t fd n w
  unfolding write_window lookup
  write_window-WindowOn v h = elim (Option-cases (lookup t fd)) [
    | inl e ↦ absurd (ground arith)
    | inr (d, e) ↦ (transfer-WindowOn d writable not_writable v e (ground arith)).0
  ]

-- The outcome of `advance` after a transfer, by the descriptor that it leaves.
pub advance_by :
    (t : FileDescriptorTable) (fd k : ℕ) (d : Descriptor) (node : FileNode)
    → lookup t fd ≡ some d
    → d.object ≡ file node
    → d.offset + k ≤ node.size
    → node.size < u64_mod
    → advance t fd k ≡ write_back t (fd - 3) (ok (record d { offset = d.offset + k }))
unfolding advance advanced as_file
advance_by t fd k d node l o fits small = rw (update_found t fd (advanced k) d l) (ground arith)

read_at :
    (t : FileDescriptorTable) (fd m : ℕ) (d : Descriptor) (node : FileNode)
    → lookup t fd ≡ some d
    → d.object ≡ file node
    → readable d.access_mode ≡ true
    → read_window t fd m ≡ ok (window_at d node m)
unfolding read_window lookup
read_at t fd m d node l o permitted = ground arith

-- In a valid table, `advance` over the window of a `read_window` on a file of less than 2^64 bytes
-- succeeds, and the next `read_window` starts where that window ended.
read_window-advance :
    (t : FileDescriptorTable) (fd n m : ℕ) (w : Window)
    → IsValid t
    → read_window t fd n ≡ ok w
    → w.node.size < u64_mod
    → (t' : FileDescriptorTable) × (advance t fd w.length ≡ (ok tt, t'))
      × (read_window t' fd m
          ≡ ok (record {
            node = w.node;
            offset = w.offset + w.length;
            length = min m (w.node.size - (w.offset + w.length));
          }))
read_window-advance t fd n m w v h small =
    let (on, permitted) = read_window-transfer t fd n w v h in
    let d = on.source in
    let d' : Descriptor = record d { offset = d.offset + w.length } in
    let t' : FileDescriptorTable = record { descriptors = set t.descriptors (fd - 3) d' } in
    (
      t',
      advance_by t fd w.length d w.node on.found on.node (omega (arith, on.start, on.inside)) small,
      ground (
        arith,
        on.start,
        read_at t' fd m d' w.node (rewritten t fd d d' on.found refl) on.node permitted,
      ),
    )
