-- ===== src/Vfs.antt =====
-- crates/vfs/src/lib.rs: the error type and the constants; the three parts are the child modules.
pub mod Path
pub mod Mount
pub mod Descriptors
pub mod Windows
use slopos.Base.{ℕ}

pub data VfsError : Type 0 where
  invalid_path too_many_components mount_path_too_long mount_table_full : VfsError
  duplicate_mount mount_not_found file_table_full bad_file_descriptor : VfsError
  invalid_offset not_readable not_writable : VfsError

abbrev pub max_path_components : ℕ
max_path_components = 16

abbrev pub max_mount_path_bytes : ℕ
max_mount_path_bytes = 256

abbrev pub first_file_descriptor : ℕ
first_file_descriptor = 3
