-- ===== src/Tests/Files.antt =====
-- The descriptor table of crates/vfs/src/lib.rs.
use slopos.Base.{position, ◌≡◌, refl, ok, err, true, arith}
use slopos.Vfs.{bad_file_descriptor}
use slopos.Vfs.Descriptors.{
  FileNode, file, read_only, read_write, FileDescriptorTable, new, opened_at, open_object,
}
use slopos.Vfs.Descriptors.View.{lookup}
use slopos.Vfs.Descriptors.Allocation.{Allocates, open_object-Allocates}
use slopos.Vfs.Windows.{read_window, append_window, advance, close}
use slopos.Vfs.Windows.Calls.{opens, advances, IsValid, step, new-IsValid, step-IsValid}
use slopos.Vfs.Windows.Transfers.{WindowOn, read_window-WindowOn}
use slopos.Vfs.Windows.Closing.{Closed, close_twice}

abbrev node : FileNode
node = record { filesystem_id = 1; node_id = 42; size = 10 }

-- One file of ten bytes open at 3, offset 6.
abbrev files : FileDescriptorTable
files = step (step (new 2) (opens (file node) read_write)) (advances 3 6)

files-IsValid : IsValid files
files-IsValid =
    step-IsValid (step (new 2) (opens (file node) read_write)) (advances 3 6) tt
      (step-IsValid (new 2) (opens (file node) read_write) tt (new-IsValid 2 (omega arith)))

abbrev at_end : FileDescriptorTable
at_end = step files (advances 3 4)

open_object-Allocates_example :
    Allocates files (opened_at (file node) 0 read_only) (open_object files (file node) read_only)
open_object-Allocates_example =
    open_object-Allocates files (file node) read_only files-IsValid.numbered

step-IsValid_example : IsValid (step files (advances 3 4))
step-IsValid_example = step-IsValid files (advances 3 4) tt files-IsValid

read_files : read_window files 3 8 ≡ ok (record { node = node; offset = 6; length = 4 })
unfolding read_window step new open_object advance position
read_files = refl

read_window-WindowOn_example : WindowOn files 3 8 (record { node = node; offset = 6; length = 4 })
read_window-WindowOn_example =
    read_window-WindowOn files 3 8 (record { node = node; offset = 6; length = 4 }) files-IsValid
      read_files

append_at_end : append_window at_end 3 6 ≡ ok (record { node = node; offset = 10; length = 6 })
unfolding append_window step new open_object advance position
append_at_end = refl

close_twice_example :
    (t' : FileDescriptorTable) × (close files 3 ≡ (ok tt, t'))
    × Closed files t' 3
    × (close t' 3 ≡ (err bad_file_descriptor, t'))
unfolding step new open_object advance lookup position
close_twice_example =
    close_twice files 3
      (record { object = file node; offset = 6; access_mode = read_write; is_open = true }) refl
