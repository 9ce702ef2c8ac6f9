-- ===== src/Vfs/Descriptors.antt =====
-- crates/vfs/src/lib.rs: `FileDescriptorTable` and its descriptors. The table's array is a list
-- whose length is the capacity. `descriptor_mut` hands out a place in the table: here it gives the
-- index, and `update` writes the changed descriptor back.
pub mod View
pub mod Allocation
use slopos.Base.{
  ℕ, zero, suc, ◌+◌, ◌-◌, ◌<◌, Bool, true, false, not, ◌&&◌, ◌||◌, Option, none, some, List, [],
  ◌∷◌, Result, ok, err, ◌>>=◌, ◌>>◌, ok_or, ensure, keep_if, if◌then◌else◌, ltb, leb, ◌==◌, min,
  position, get_elem?, set, replicate, filter, length, checked_add, checked_sub, try_from, u32_mod,
  u64_mod, map,
}
use slopos.Vfs.{
  VfsError, file_table_full, bad_file_descriptor, invalid_offset, not_readable, not_writable,
  first_file_descriptor,
}

pub record FileNode : Type 0 where
  pub filesystem_id : ℕ
  pub node_id : ℕ
  pub size : ℕ

pub data DescriptorObject : Type 0 where
  file : FileNode → DescriptorObject
  local_socket : ℕ → ℕ → DescriptorObject
  shared_memory : ℕ → ℕ → DescriptorObject
  desktop_events : DescriptorObject

pub data AccessMode : Type 0 where
  read_only write_only read_write : AccessMode

unfoldable pub readable : AccessMode → Bool
readable read_only = true
readable write_only = false
readable read_write = true

unfoldable pub writable : AccessMode → Bool
writable read_only = false
writable write_only = true
writable read_write = true

pub record Descriptor : Type 0 where
  pub object : DescriptorObject
  pub offset : ℕ
  pub access_mode : AccessMode
  pub is_open : Bool

-- Descriptor::EMPTY
abbrev pub empty_descriptor : Descriptor
empty_descriptor = record {
  object = file (record { filesystem_id = 0; node_id = 0; size = 0 });
  offset = 0;
  access_mode = read_only;
  is_open = false;
}

pub record FileDescriptorTable : Type 0 where
  pub descriptors : List Descriptor

-- ReadWindow and WriteWindow have the same fields.
pub record Window : Type 0 where
  pub node : FileNode
  pub offset : ℕ
  pub length : ℕ

unfoldable pub new : ℕ → FileDescriptorTable
new n = record { descriptors = replicate n empty_descriptor }

unfoldable pub descriptor_index : ℕ → Result VfsError ℕ
descriptor_index fd = ok_or (checked_sub fd first_file_descriptor) bad_file_descriptor

unfoldable pub descriptor : FileDescriptorTable → ℕ → Result VfsError Descriptor
unfolding descriptor_index
descriptor t fd = do
  index ← descriptor_index fd
  ok_or (keep_if (λ d. d.is_open) (get_elem? t.descriptors index)) bad_file_descriptor

unfoldable pub descriptor_mut : FileDescriptorTable → ℕ → Result VfsError (ℕ × Descriptor)
unfolding descriptor_index
descriptor_mut t fd = do
  index ← descriptor_index fd
  d ← ok_or (keep_if (λ d. d.is_open) (get_elem? t.descriptors index)) bad_file_descriptor
  ok (index, d)

-- Run the rest of a method on the descriptor that `descriptor_mut` finds, and write it back.
abbrev pub write_back :
    FileDescriptorTable
    → ℕ
    → Result VfsError Descriptor
    → Result VfsError (Unit {0}) × FileDescriptorTable
write_back t index (ok d) = (ok tt, record { descriptors = set t.descriptors index d })
write_back t index (err e) = (err e, t)

unfoldable pub update :
    FileDescriptorTable
    → ℕ
    → (Descriptor → Result VfsError Descriptor)
    → Result VfsError (Unit {0}) × FileDescriptorTable
unfolding descriptor_mut
update t fd body = elim (descriptor_mut t fd) [
  | ok (index, d) ↦ write_back t index (body d)
  | err e ↦ (err e, t)
]

-- `let DescriptorObject::File(node) = descriptor.object else { return Err(BadFileDescriptor) }`
unfoldable pub as_file : DescriptorObject → Result VfsError FileNode
as_file (file node) = ok node
as_file _ = err bad_file_descriptor

unfoldable pub is_file : DescriptorObject → Bool
is_file (file node) = true
is_file _ = false

-- The place of the first closed descriptor and the number that it stands for.
unfoldable pub free_slot : FileDescriptorTable → Result VfsError (ℕ × ℕ)
free_slot t = do
  index ← ok_or (position (λ d. not d.is_open) t.descriptors) file_table_full
  number ← ok_or (try_from u32_mod index) file_table_full
  fd ← ok_or (checked_add u32_mod first_file_descriptor number) file_table_full
  ok (index, fd)

unfoldable pub fill_slot :
    FileDescriptorTable
    → Descriptor
    → Result VfsError (ℕ × ℕ)
    → Result VfsError ℕ × FileDescriptorTable
fill_slot t d (ok (index, fd)) = (ok fd, record { descriptors = set t.descriptors index d })
fill_slot t d (err e) = (err e, t)

abbrev pub opened_at : DescriptorObject → ℕ → AccessMode → Descriptor
opened_at object offset mode = record {
  object = object;
  offset = offset;
  access_mode = mode;
  is_open = true;
}

unfoldable pub open_object :
    FileDescriptorTable → DescriptorObject → AccessMode → Result VfsError ℕ × FileDescriptorTable
unfolding free_slot fill_slot
open_object t object mode = fill_slot t (opened_at object 0 mode) (free_slot t)

module _ (t : FileDescriptorTable) where
  unfoldable pub open_with_mode : FileNode → AccessMode → Result VfsError ℕ × FileDescriptorTable
  unfolding open_object
  open_with_mode node mode = open_object t (file node) mode

  unfoldable pub open_read : FileNode → Result VfsError ℕ × FileDescriptorTable
  unfolding open_with_mode
  open_read node = open_with_mode node read_only

  unfoldable pub open_local_socket : ℕ → ℕ → Result VfsError ℕ × FileDescriptorTable
  unfolding open_object
  open_local_socket index generation = open_object t (local_socket index generation) read_write

  unfoldable pub open_shared_memory : ℕ → ℕ → Result VfsError ℕ × FileDescriptorTable
  unfolding open_object
  open_shared_memory index generation = open_object t (shared_memory index generation) read_write

  unfoldable pub open_shared_memory_read_only : ℕ → ℕ → Result VfsError ℕ × FileDescriptorTable
  unfolding open_object
  open_shared_memory_read_only index generation =
      open_object t (shared_memory index generation) read_only

-- `self.descriptor_mut(fd)?.offset = generation; Ok(fd)`
unfoldable pub start_at :
    ℕ → Result VfsError ℕ → FileDescriptorTable → Result VfsError ℕ × FileDescriptorTable
unfolding update
start_at generation (err e) t = (err e, t)
start_at generation (ok fd) t =
    let (done, t') = update t fd (λ d. ok (record d { offset = generation })) in
    (done >>= (λ _. ok fd), t')

unfoldable pub open_desktop_events :
    FileDescriptorTable → ℕ → Result VfsError ℕ × FileDescriptorTable
unfolding open_object start_at
open_desktop_events t generation =
    let (opened, t') = open_object t desktop_events read_only in start_at generation opened t'
