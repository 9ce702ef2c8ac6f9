-- ===== src/Vfs/Windows.antt =====
-- crates/vfs/src/lib.rs: the methods of `FileDescriptorTable` on open descriptors: windows for a
-- transfer, sizes and offsets, closing, and copies of the open objects.
pub mod Offsets
pub mod Calls
pub mod Transfers
pub mod Appending
pub mod Closing
use slopos.Base.{
  ℕ, zero, suc, ◌+◌, ◌-◌, ◌<◌, Bool, true, false, not, ◌&&◌, ◌||◌, Option, none, some, List, [],
  ◌∷◌, ◌++◌, Result, ok, err, ◌>>=◌, ◌>>◌, ok_or, ensure, if◌then◌else◌, ltb, leb, ◌==◌, min,
  length, checked_add, try_from, u64_mod, map, replicate, filter, count,
}
use slopos.Vfs.{VfsError, bad_file_descriptor, invalid_offset, not_readable, not_writable}
use slopos.Vfs.Descriptors.{
  FileNode, DescriptorObject, file, Descriptor, empty_descriptor, FileDescriptorTable, Window,
  readable, writable, descriptor, update, as_file, is_file,
}

-- `requested.min(usize::try_from(remaining).unwrap_or(usize::MAX))`; a usize has 64 bits here.
abbrev pub window_at : Descriptor → FileNode → ℕ → Window
window_at d node requested = record {
  node = node;
  offset = d.offset;
  length = min requested (node.size - d.offset);
}

module _ (t : FileDescriptorTable) (fd : ℕ) where
  unfoldable pub read_window : ℕ → Result VfsError Window
  unfolding descriptor readable as_file
  read_window requested = do
    d ← descriptor t fd
    ensure (readable d.access_mode) not_readable
    node ← as_file d.object
    ok (window_at d node requested)

  unfoldable pub write_window : ℕ → Result VfsError Window
  unfolding descriptor writable as_file
  write_window requested = do
    d ← descriptor t fd
    ensure (writable d.access_mode) not_writable
    node ← as_file d.object
    ok (window_at d node requested)

  unfoldable pub append_window : ℕ → Result VfsError Window
  unfolding descriptor writable as_file
  append_window requested = do
    d ← descriptor t fd
    ensure (writable d.access_mode) not_writable
    node ← as_file d.object
    ensure (d.offset == node.size) invalid_offset
    added ← ok_or (try_from u64_mod requested) invalid_offset
    end ← ok_or (checked_add u64_mod d.offset added) invalid_offset
    ok (record { node = node; offset = d.offset; length = requested })

  unfoldable pub object : Result VfsError DescriptorObject
  unfolding descriptor
  object = do d ← descriptor t fd; ok d.object

  unfoldable pub readable_object : Result VfsError (DescriptorObject × ℕ)
  unfolding descriptor readable
  readable_object = do
    d ← descriptor t fd
    ensure (readable d.access_mode) not_readable
    ok (d.object, d.offset)

-- What each `&mut self` method does to the descriptor that it finds.
unfoldable pub resized : ℕ → Descriptor → Result VfsError Descriptor
unfolding writable as_file
resized size d = do
  ensure (writable d.access_mode) not_writable
  ensure (leb d.offset size) invalid_offset
  node ← as_file d.object
  ok (record d { object = file (record node { size = size }) })

unfoldable pub advanced : ℕ → Descriptor → Result VfsError Descriptor
unfolding as_file
advanced length d = do
  length ← ok_or (try_from u64_mod length) invalid_offset
  new_offset ← ok_or (checked_add u64_mod d.offset length) invalid_offset
  node ← as_file d.object
  ensure (leb new_offset node.size) invalid_offset
  ok (record d { offset = new_offset })

unfoldable pub sought : ℕ → Descriptor → Result VfsError Descriptor
unfolding as_file
sought offset d = do
  node ← as_file d.object
  ensure (leb offset node.size) invalid_offset
  ok (record d { offset = offset })

unfoldable pub advanced_object : ℕ → ℕ → Descriptor → Result VfsError Descriptor
advanced_object length object_size d = do
  length ← ok_or (try_from u64_mod length) invalid_offset
  new_offset ← ok_or (checked_add u64_mod d.offset length) invalid_offset
  ensure (leb new_offset object_size) invalid_offset
  ok (record d { offset = new_offset })

unfoldable pub placed : ℕ → Descriptor → Result VfsError Descriptor
unfolding readable is_file
placed offset d = do
  ensure (not (not (readable d.access_mode) || is_file d.object)) bad_file_descriptor
  ok (record d { offset = offset })

module _ (t : FileDescriptorTable) where
  unfoldable pub set_size : ℕ → ℕ → Result VfsError (Unit {0}) × FileDescriptorTable
  unfolding resized update
  set_size fd size = update t fd (resized size)

  unfoldable pub advance : ℕ → ℕ → Result VfsError (Unit {0}) × FileDescriptorTable
  unfolding advanced update
  advance fd length = update t fd (advanced length)

  unfoldable pub seek : ℕ → ℕ → Result VfsError (Unit {0}) × FileDescriptorTable
  unfolding sought update
  seek fd offset = update t fd (sought offset)

  unfoldable pub close : ℕ → Result VfsError (Unit {0}) × FileDescriptorTable
  unfolding update
  close fd = update t fd (λ _. ok empty_descriptor)

  unfoldable pub advance_object : ℕ → ℕ → ℕ → Result VfsError (Unit {0}) × FileDescriptorTable
  unfolding advanced_object update
  advance_object fd length object_size = update t fd (advanced_object length object_size)

  unfoldable pub set_object_offset : ℕ → ℕ → Result VfsError (Unit {0}) × FileDescriptorTable
  unfolding placed update
  set_object_offset fd offset = update t fd (placed offset)

-- The loop of `snapshot_objects` over the open descriptors: the slots that are left in `output`,
-- and the number copied. `output.get_mut(copied)` fails when no slot is left.
unfoldable pub copy_objects :
    List Descriptor → List (Option DescriptorObject) → List (Option DescriptorObject) × ℕ
copy_objects [] output = (output, 0)
copy_objects (d ∷ ds) [] = ([], 0)
copy_objects (d ∷ ds) (slot ∷ output) =
    let (rest, copied) = copy_objects ds output in (some d.object ∷ rest, suc copied)

unfoldable pub snapshot_objects :
    FileDescriptorTable → List (Option DescriptorObject) → List (Option DescriptorObject) × ℕ
unfolding copy_objects
snapshot_objects t output =
    copy_objects (filter (λ d. d.is_open) t.descriptors) (replicate (length output) none)

-- The loop of `close_all`.
unfoldable pub close_each : List Descriptor → List Descriptor × ℕ
close_each [] = ([], 0)
close_each (d ∷ ds) =
    let (rest, closed) = close_each ds in
    if d.is_open then (empty_descriptor ∷ rest, suc closed) else (d ∷ rest, closed)

unfoldable pub close_all : FileDescriptorTable → ℕ × FileDescriptorTable
unfolding close_each
close_all t = let (ds, closed) = close_each t.descriptors in (closed, record { descriptors = ds })
