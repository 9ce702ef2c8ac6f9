-- ===== src/Elf.antt =====
-- crates/elf/src/lib.rs: the reader of ELF files. The checks of a file and its segments are the
-- child modules.
pub mod File
pub mod Layout
pub mod Segments
pub mod Turns
pub mod Loading
use slopos.Base.{
  ℕ, zero, suc, ◌+◌, ◌*◌, ◌/◌, ◌%◌, ◌^◌, ◌==◌, ◌||◌, Bool, true, false, List, [], ◌∷◌, length, take,
  drop, Option, some, none, Result, ok, err, ◌>>=◌, ok_or, leb, if◌then◌else◌,
}

pub data ParseError : Type 0 where
  truncated invalid_magic unsupported_class unsupported_endian unsupported_ident_version :
      ParseError
  unsupported_abi unsupported_file_type unsupported_machine unsupported_version : ParseError
  invalid_header_size missing_program_headers invalid_program_header_size : ParseError
  too_many_program_headers program_header_table_out_of_bounds missing_load_segment : ParseError
  empty_load_segment file_size_exceeds_memory_size file_range_out_of_bounds address_overflow :
      ParseError
  non_canonical_address invalid_alignment misaligned_load_segment : ParseError
  writable_executable_segment overlapping_load_segments entry_outside_executable_segment :
      ParseError

pub record ProgramHeader : Type 0 where
  pub kind : ℕ
  pub flags : ℕ
  pub offset : ℕ
  pub virtual_address : ℕ
  pub file_size : ℕ
  pub memory_size : ℕ
  pub alignment : ℕ

pub record LoadSegment : Type 0 where
  pub contents : List ℕ
  pub virtual_address : ℕ
  pub memory_size : ℕ
  pub flags : ℕ
  pub alignment : ℕ

-- The tests `flags & PF_X`, `PF_W` and `PF_R` of bits 0, 1 and 2.
unfoldable pub executable : ℕ → Bool
executable flags = flags % 2 == 1

unfoldable pub writable : ℕ → Bool
writable flags = flags / 2 % 2 == 1

unfoldable pub readable : ℕ → Bool
readable flags = flags / 4 % 2 == 1

-- `bytes.get(offset..offset + count)`
unfoldable pub get_slice : List ℕ → ℕ → ℕ → Option (List ℕ)
get_slice bytes offset count =
    if leb (offset + count) (length bytes) then some (take count (drop offset bytes)) else none

-- `from_le_bytes`
unfoldable pub from_le_bytes : List ℕ → ℕ
from_le_bytes [] = 0
from_le_bytes (b ∷ bs) = b + 256 * from_le_bytes bs

-- `read_u16`, `read_u32` and `read_u64`: a little-endian number of some bytes.
unfoldable pub read_number : ℕ → List ℕ → ℕ → Result ParseError ℕ
unfolding get_slice from_le_bytes
read_number size bytes offset = do
  value ← ok_or (get_slice bytes offset size) truncated
  ok (from_le_bytes value)

unfoldable pub read_u16 : List ℕ → ℕ → Result ParseError ℕ
unfolding read_number
read_u16 = read_number 2

unfoldable pub read_u32 : List ℕ → ℕ → Result ParseError ℕ
unfolding read_number
read_u32 = read_number 4

unfoldable pub read_u64 : List ℕ → ℕ → Result ParseError ℕ
unfolding read_number
read_u64 = read_number 8

unfoldable pub is_canonical : ℕ → Bool
is_canonical address = leb address 140737488355327 || leb 18446603336221196288 address

-- `is_power_of_two` of a number below 2 ^ k
unfoldable pub is_power_below : ℕ → ℕ → Bool
is_power_below zero n = false
is_power_below (suc k) n = n == 2 ^ k || is_power_below k n
