-- ===== src/Vfs/Windows/Appending.antt =====
-- Growing a file through a descriptor: `append_window`, `set_size`, `advance`.
use slopos.Base.{
  ℕ, ◌+◌, ◌-◌, ◌≤◌, ◌<◌, ◌≡◌, refl, some, ok, arith, u64_mod, true, inl, inr, Option-cases, set,
}
use slopos.Vfs.Descriptors.{
  FileNode, file, Descriptor, FileDescriptorTable, Window, writable, as_file, write_back,
}
use slopos.Vfs.Descriptors.View.{lookup, rewritten, update_found}
use slopos.Vfs.Windows.Transfers.{advance_by}
use slopos.Vfs.Windows.{append_window, set_size, advance, resized}

-- What a successful `append_window` says of the descriptor.
record AppendsAt (t : FileDescriptorTable) (fd n : ℕ) (w : Window) : Type 0 where
  source : Descriptor
  found : lookup t fd ≡ some source
  node : source.object ≡ file w.node
  at_end : source.offset ≡ w.node.size
  start : w.offset ≡ w.node.size
  whole : w.length ≡ n
  room : w.node.size + n < u64_mod
  permitted : writable source.access_mode ≡ true

append_window-AppendsAt :
    (t : FileDescriptorTable) (fd n : ℕ) (w : Window)
    → append_window t fd n ≡ ok w
    → AppendsAt t fd n w
unfolding append_window lookup as_file
append_window-AppendsAt t fd n w h = elim (Option-cases (lookup t fd)) [
  | inl e ↦ absurd (ground arith)
  | inr (d, e) ↦ record {
    source = d;
    found = e;
    node = ground arith;
    at_end = ground arith;
    start = ground arith;
    whole = ground arith;
    room = ground arith;
    permitted = ground arith;
  }
]

grown : Descriptor → FileNode → ℕ → Descriptor
grown d node size = record d { object = file (record node { size = size }) }

set_size_to :
    (t : FileDescriptorTable) (fd size : ℕ) (d : Descriptor) (node : FileNode)
    → lookup t fd ≡ some d
    → d.object ≡ file node
    → d.offset ≤ size
    → writable d.access_mode ≡ true
    → set_size t fd size ≡ write_back t (fd - 3) (ok (grown d node size))
unfolding set_size resized as_file grown
set_size_to t fd size d node l o fits permitted =
    rw (update_found t fd (resized size) d l) (ground arith)

-- After an `append_window` that succeeds, `set_size` to the end of the window and `advance` over
-- it succeed, and leave the descriptor at the end of the grown file.
append_window-advance :
    (t : FileDescriptorTable) (fd n : ℕ) (w : Window)
    → append_window t fd n ≡ ok w
    → (t1 t2 : FileDescriptorTable) × (d : Descriptor) × (set_size t fd (w.offset + n)
        ≡ (ok tt, t1))
      × (advance t1 fd n ≡ (ok tt, t2))
      × (lookup t2 fd ≡ some d)
      × (d.object ≡ file (record w.node { size = w.node.size + n }))
      × (d.offset ≡ w.node.size + n)
unfolding grown
append_window-advance t fd n w h =
    let a = append_window-AppendsAt t fd n w h in
    let d = a.source in
    let d1 = grown d w.node (w.offset + n) in
    let d2 : Descriptor = record d1 { offset = d.offset + n } in
    let t1 : FileDescriptorTable = record { descriptors = set t.descriptors (fd - 3) d1 } in
    let t2 : FileDescriptorTable = record { descriptors = set t1.descriptors (fd - 3) d2 } in
    let l1 = rewritten t fd d d1 a.found refl in
    (
      t1,
      t2,
      d2,
      set_size_to t fd (w.offset + n) d w.node a.found a.node (omega (arith, a.at_end, a.start))
          a.permitted,
      advance_by t1 fd n d1 (record w.node { size = w.offset + n }) l1 refl
          (omega (arith, a.at_end, a.start)) (omega (arith, a.start, a.room)),
      rewritten t1 fd d1 d2 l1 refl,
      ground (arith, a.start),
      omega (arith, a.at_end),
    )
