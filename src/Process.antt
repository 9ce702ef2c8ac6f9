-- ===== src/Process.antt =====
-- crates/process/src/lib.rs: the states, the images and the errors of processes. The table, its
-- file methods and the scheduler are the child modules.
pub mod Table
pub mod Files
pub mod InitialStack
pub mod Calls
pub mod Effects
pub mod Invariant
pub mod Isolation
pub mod Ownership
pub mod Scheduler
pub mod Fairness
pub mod Birth
pub mod Burial
pub mod LifeCycle
use slopos.Base.{
  ℕ, ◌%◌, Bool, true, false, ◌||◌, not, Option, Result, ok, err, ensure, ltb, leb, ◌==◌,
}
use slopos.Vfs.{VfsError}

pub data ProcessState : Type 0 where
  ready running blocked runnable exited : ProcessState

pub record ProcessImage : Type 0 where
  pub address_space_root : ℕ
  pub entry : ℕ
  pub stack_pointer : ℕ
  pub stack_top : ℕ
  pub user_memory_start : ℕ
  pub user_memory_end : ℕ

pub data ProcessError : Type 0 where
  invalid_image table_full pid_exhausted not_found invalid_state counter_overflow : ProcessError
  vfs : VfsError → ProcessError

-- An exit status is the bit pattern of an i32.
pub record ProcessSnapshot : Type 0 where
  pub pid : ℕ
  pub parent : Option ℕ
  pub state : ProcessState
  pub image : ProcessImage
  pub exit_status : Option ℕ
  pub syscall_count : ℕ

-- `root & 0xfff` is the remainder by 4096.
unfoldable pub validate_image : ProcessImage → Result ProcessError (Unit {0})
validate_image image =
    ensure
      (not (
        image.address_space_root == 0
        || (not (image.address_space_root % 4096 == 0)
            || (leb image.user_memory_end image.user_memory_start
                || (ltb image.entry image.user_memory_start
                    || (leb image.user_memory_end image.entry
                        || (leb image.stack_pointer image.user_memory_end
                            || (ltb image.stack_top image.stack_pointer
                                || leb image.stack_top image.user_memory_end))))))))
      invalid_image
