-- ===== src/Process/InitialStack.antt =====
-- crates/process/src/lib.rs: `build_linux_initial_stack`, which writes the strings, the pointers to
-- them and the auxiliary vector of a new program. What an error leaves in the buffer is not modelled.
use slopos.Base.{
  ℕ, zero, suc, ◌+◌, ◌-◌, ◌*◌, ◌/◌, ◌%◌, ◌==◌, ◌||◌, not, Bool, true, false, List, [], ◌∷◌, ◌++◌,
  length, set, any, Option, some, none, Result, ok, err, ◌>>=◌, ◌>>◌, ensure, ok_or, leb, ltb,
  checked_add, checked_mul, checked_sub, u64_mod, ◌&&◌,
}
pub mod Layout

pub data InitialStackError : Type 0 where
  missing_executable_name too_many_arguments too_many_environment_entries : InitialStackError
  empty_string embedded_null stack_too_small address_overflow : InitialStackError

pub record InitialStackLayout : Type 0 where
  pub stack_pointer : ℕ
  pub argument_count : ℕ
  pub environment_count : ℕ
  pub auxiliary_pairs : ℕ
  pub used_bytes : ℕ

-- `copy_from_slice` from one index on; the range is checked before.
unfoldable pub copy_at : List ℕ → ℕ → List ℕ → List ℕ
copy_at stack start [] = stack
copy_at stack start (b ∷ bs) = copy_at (set stack start b) (start + 1) bs

-- The buffer and the place below which it is free.
pub record Cursor : Type 0 where
  pub stack : List ℕ
  pub cursor : ℕ

unfoldable pub push_initial_string : ℕ → List ℕ → Cursor → Result InitialStackError (ℕ × Cursor)
unfolding copy_at
push_initial_string stack_base value c = do
  ensure (not (length value == 0)) empty_string
  ensure (not (any (λ b. b == 0) value)) embedded_null
  size ← ok_or (checked_add u64_mod (length value) 1) stack_too_small
  cursor ← ok_or (checked_sub c.cursor size) stack_too_small
  end ← ok_or (checked_add u64_mod cursor (length value)) stack_too_small
  ensure (leb end (length c.stack)) stack_too_small
  ensure (ltb end (length c.stack)) stack_too_small
  pointer ← ok_or (checked_add u64_mod stack_base cursor) address_overflow
  ok (pointer, record { stack = set (copy_at c.stack cursor value) end 0; cursor = cursor })

-- The loops over `(0..n).rev()`: the last string is pushed first.
unfoldable pub push_strings :
    ℕ → List (List ℕ) → Cursor → Result InitialStackError (List ℕ × Cursor)
unfolding push_initial_string
push_strings stack_base [] c = ok ([], c)
push_strings stack_base (value ∷ values) c = do
  later ← push_strings stack_base values c
  pushed ← push_initial_string stack_base value later.1
  ok (pushed.0 ∷ later.0, pushed.1)

-- `to_le_bytes` of so many bytes
unfoldable pub to_le_bytes : ℕ → ℕ → List ℕ
to_le_bytes zero value = []
to_le_bytes (suc n) value = value % 256 ∷ to_le_bytes n (value / 256)

unfoldable pub write_initial_word : ℕ → ℕ → ℕ → List ℕ → Result InitialStackError (List ℕ)
unfolding copy_at to_le_bytes
write_initial_word table_start word value stack = do
  distance ← ok_or (checked_mul u64_mod word 8) stack_too_small
  offset ← ok_or (checked_add u64_mod table_start distance) stack_too_small
  end ← ok_or (checked_add u64_mod offset 8) stack_too_small
  ensure (leb end (length stack)) stack_too_small
  ok (copy_at stack offset (to_le_bytes 8 value))

-- The words one after the other: the number written and the buffer.
unfoldable pub write_words : ℕ → ℕ → List ℕ → List ℕ → Result InitialStackError (ℕ × List ℕ)
unfolding write_initial_word
write_words table_start word [] stack = ok (word, stack)
write_words table_start word (value ∷ values) stack = do
  stack ← write_initial_word table_start word value stack
  write_words table_start (word + 1) values stack

-- The auxiliary vector, each kind before its value.
abbrev pub auxiliary : ℕ → ℕ → ℕ → List ℕ
auxiliary page_size entry name =
    6 ∷ page_size ∷ 9 ∷ entry ∷ 11 ∷ 0 ∷ 12 ∷ 0 ∷ 13 ∷ 0 ∷ 14 ∷ 0 ∷ 23 ∷ 0 ∷ 31 ∷ name ∷ 0 ∷ 0 ∷ []

abbrev pub first_of : List ℕ → ℕ
first_of [] = 0
first_of (p ∷ ps) = p

-- The number of words: the count, the pointers with a null behind each kind, and the pairs.
abbrev pub table_words : List (List ℕ) → List (List ℕ) → ℕ
table_words arguments environment = 1 + length arguments + 1 + length environment + 1 + 18

-- The place of the table: below the strings, at a multiple of 16.
unfoldable pub place_table : ℕ → ℕ → ℕ → ℕ → Result InitialStackError (ℕ × ℕ)
place_table stack_base stack_top cursor words = do
  bytes ← ok_or (checked_mul u64_mod words 8) stack_too_small
  unaligned ← ok_or (checked_sub cursor bytes) stack_too_small
  pointer ← ok_or (checked_add u64_mod stack_base (unaligned - unaligned % 16)) address_overflow
  ensure (pointer % 16 == 0 && ltb pointer stack_top) stack_too_small
  ok (unaligned - unaligned % 16, pointer)

-- The checks before anything is written, and the end of the stack.
unfoldable pub check_stack : List ℕ → ℕ → List (List ℕ) → List (List ℕ) → Result InitialStackError ℕ
check_stack stack stack_base arguments environment = do
  ensure (not (length arguments == 0)) missing_executable_name
  ensure (leb (length arguments) 16) too_many_arguments
  ensure (leb (length environment) 16) too_many_environment_entries
  ok_or (checked_add u64_mod stack_base (length stack)) address_overflow

unfoldable pub layout_at : ℕ → ℕ → ℕ → ℕ → ℕ → InitialStackLayout
layout_at size arguments environment table_start stack_pointer = record {
  stack_pointer = stack_pointer;
  argument_count = arguments;
  environment_count = environment;
  auxiliary_pairs = 9;
  used_bytes = size - table_start;
}

unfoldable pub build_linux_initial_stack :
    List ℕ
    → ℕ
    → List (List ℕ)
    → List (List ℕ)
    → ℕ
    → ℕ
    → Result InitialStackError (InitialStackLayout × List ℕ)
unfolding check_stack push_strings place_table write_words layout_at
build_linux_initial_stack stack stack_base arguments environment entry page_size = do
  stack_top ← check_stack stack stack_base arguments environment
  envp ← push_strings stack_base environment (record { stack = stack; cursor = length stack })
  argv ← push_strings stack_base arguments envp.1
  table ← place_table stack_base stack_top argv.1.cursor (table_words arguments environment)
  written ←
      write_words table.0 0
        (length arguments
          ∷ (argv.0 ++ (0 ∷ (envp.0 ++ (0 ∷ auxiliary page_size entry (first_of argv.0))))))
        argv.1.stack
  ensure (written.0 == table_words arguments environment) stack_too_small
  ok (layout_at (length stack) (length arguments) (length environment) table.0 table.1, written.1)
