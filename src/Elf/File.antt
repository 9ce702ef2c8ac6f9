-- ===== src/Elf/File.antt =====
-- crates/elf/src/lib.rs: `ElfFile`, its header and the checks of its segments.
use slopos.Base.{
  ℕ, zero, suc, ◌+◌, ◌-◌, ◌%◌, ◌==◌, ◌&&◌, ◌||◌, not, Bool, true, false, List, length, get_elem?,
  Option, some, none, Result, ok, err, ◌>>=◌, ◌>>◌, ensure, ok_or, leb, ltb, checked_add,
  checked_mul, u64_mod,
}
use slopos.Elf.{
  ParseError, truncated, invalid_magic, unsupported_class, unsupported_endian,
  unsupported_ident_version, unsupported_abi, unsupported_file_type, unsupported_machine,
  unsupported_version, invalid_header_size, missing_program_headers, invalid_program_header_size,
  too_many_program_headers, program_header_table_out_of_bounds, missing_load_segment,
  empty_load_segment, file_size_exceeds_memory_size, file_range_out_of_bounds, address_overflow,
  non_canonical_address, invalid_alignment, misaligned_load_segment, writable_executable_segment,
  overlapping_load_segments, entry_outside_executable_segment, ProgramHeader, LoadSegment,
  executable, writable, get_slice, read_u16, read_u32, read_u64, is_canonical, is_power_below,
}

pub record ElfFile : Type 0 where
  pub bytes : List ℕ
  pub entry : ℕ
  pub program_header_offset : ℕ
  pub program_header_count : ℕ
  pub load_segment_count : ℕ

-- `bytes[index] == value`; the header is known to be 64 bytes long.
abbrev pub byte_is : List ℕ → ℕ → ℕ → Bool
byte_is bytes i value = elim (get_elem? bytes i) [ none ↦ false | some b ↦ b == value ]

abbrev pub has_magic : List ℕ → Bool
has_magic bytes =
    byte_is bytes 0 127 && (byte_is bytes 1 69 && (byte_is bytes 2 76 && byte_is bytes 3 70))

-- The checks of the identification.
unfoldable pub check_ident : List ℕ → Result ParseError (Unit {0})
check_ident bytes = do
  ensure (leb 64 (length bytes)) truncated
  ensure (has_magic bytes) invalid_magic
  ensure (byte_is bytes 4 2) unsupported_class
  ensure (byte_is bytes 5 1) unsupported_endian
  ensure (byte_is bytes 6 1) unsupported_ident_version
  ensure (byte_is bytes 7 0 || byte_is bytes 7 3) unsupported_abi

-- The checks of the file type, the machine, the version and the size of the header.
unfoldable pub check_header : List ℕ → Result ParseError (Unit {0})
unfolding read_u16 read_u32
check_header bytes = do
  kind ← read_u16 bytes 16
  ensure (kind == 2) unsupported_file_type
  machine ← read_u16 bytes 18
  ensure (machine == 62) unsupported_machine
  version ← read_u32 bytes 20
  ensure (version == 1) unsupported_version
  size ← read_u16 bytes 52
  ensure (size == 64) invalid_header_size

-- The program header table: its offset and the number of its entries.
unfoldable pub program_header_table : List ℕ → Result ParseError (ℕ × ℕ)
unfolding read_u16 read_u64
program_header_table bytes = do
  offset ← read_u64 bytes 32
  size ← read_u16 bytes 54
  count ← read_u16 bytes 56
  ensure (not (count == 0)) missing_program_headers
  ensure (size == 56) invalid_program_header_size
  ensure (leb count 64) too_many_program_headers
  table_size ← ok_or (checked_mul u64_mod size count) program_header_table_out_of_bounds
  table_end ← ok_or (checked_add u64_mod offset table_size) program_header_table_out_of_bounds
  ensure (leb 64 offset && leb table_end (length bytes)) program_header_table_out_of_bounds
  ok (offset, count)

unfoldable pub program_header : ElfFile → ℕ → Result ParseError ProgramHeader
unfolding read_u32 read_u64
program_header file index = do
  ensure (ltb index file.program_header_count) program_header_table_out_of_bounds
  distance ← ok_or (checked_mul u64_mod index 56) program_header_table_out_of_bounds
  start ←
      ok_or (checked_add u64_mod file.program_header_offset distance)
        program_header_table_out_of_bounds
  kind ← read_u32 file.bytes start
  flags ← read_u32 file.bytes (start + 4)
  offset ← read_u64 file.bytes (start + 8)
  virtual_address ← read_u64 file.bytes (start + 16)
  file_size ← read_u64 file.bytes (start + 32)
  memory_size ← read_u64 file.bytes (start + 40)
  alignment ← read_u64 file.bytes (start + 48)
  ok (record {
    kind = kind;
    flags = flags;
    offset = offset;
    virtual_address = virtual_address;
    file_size = file_size;
    memory_size = memory_size;
    alignment = alignment;
  })

unfoldable pub check_alignment : ProgramHeader → Result ParseError (Unit {0})
unfolding is_power_below
check_alignment h = elim (ltb 1 h.alignment) [
  | false ↦ ok tt
  | true ↦ do
    ensure (is_power_below 64 h.alignment) invalid_alignment
    ensure (h.virtual_address % h.alignment == h.offset % h.alignment) misaligned_load_segment
]

-- The first checks of `validate_load_segment`, of the header alone.
unfoldable pub check_shape : ProgramHeader → Result ParseError (Unit {0})
unfolding writable executable
check_shape h = do
  ensure (not (h.memory_size == 0)) empty_load_segment
  ensure (leb h.file_size h.memory_size) file_size_exceeds_memory_size
  ensure (not (writable h.flags && executable h.flags)) writable_executable_segment

-- Its last checks, of the ranges in the file and in memory.
unfoldable pub check_ranges : ElfFile → ProgramHeader → Result ParseError (Unit {0})
unfolding is_canonical
check_ranges file h = do
  file_end ← ok_or (checked_add u64_mod h.offset h.file_size) file_range_out_of_bounds
  ensure (leb file_end (length file.bytes)) file_range_out_of_bounds
  memory_end ← ok_or (checked_add u64_mod h.virtual_address h.memory_size) address_overflow
  ensure (is_canonical h.virtual_address && is_canonical (memory_end - 1)) non_canonical_address

unfoldable pub validate_load_segment : ElfFile → ProgramHeader → Result ParseError (Unit {0})
unfolding check_shape check_alignment check_ranges
validate_load_segment file h = do check_shape h; check_alignment h; check_ranges file h

unfoldable pub segments_overlap : ProgramHeader → ProgramHeader → Result ParseError Bool
segments_overlap left right = do
  left_end ← ok_or (checked_add u64_mod left.virtual_address left.memory_size) address_overflow
  right_end ← ok_or (checked_add u64_mod right.virtual_address right.memory_size) address_overflow
  ok (ltb left.virtual_address right_end && ltb right.virtual_address left_end)

-- `other.kind == PT_LOAD && segments_overlap(header, other)?`
unfoldable pub check_pair : ProgramHeader → ProgramHeader → Result ParseError (Unit {0})
unfolding segments_overlap
check_pair h other = elim (other.kind == 1) [
  | false ↦ ok tt
  | true ↦ do overlap ← segments_overlap h other; ensure (not overlap) overlapping_load_segments
]

-- The inner loop: the headers from one index on, so many of them.
unfoldable pub check_previous : ElfFile → ProgramHeader → ℕ → ℕ → Result ParseError (Unit {0})
unfolding program_header check_pair
check_previous file h previous zero = ok tt
check_previous file h previous (suc n) = do
  other ← program_header file previous
  check_pair h other
  check_previous file h (previous + 1) n

-- `flags & PF_X != 0 && entry >= virtual_address && entry < memory_end`
unfoldable pub holds_entry : ElfFile → ProgramHeader → Bool
unfolding executable
holds_entry file h =
    executable h.flags
    && (leb h.virtual_address file.entry && ltb file.entry (h.virtual_address + h.memory_size))

-- The body of the outer loop on one load segment.
unfoldable pub check_load : ElfFile → ℕ → ProgramHeader → Result ParseError (Unit {0})
unfolding validate_load_segment check_previous
check_load file index h = do
  validate_load_segment file h
  memory_end ← ok_or (checked_add u64_mod h.virtual_address h.memory_size) address_overflow
  check_previous file h 0 index

-- The outer loop: the number of load segments, and whether the entry is executable.
unfoldable pub validate_from : ElfFile → ℕ → ℕ → ℕ → Bool → Result ParseError (ℕ × Bool)
unfolding program_header check_load holds_entry
validate_from file index zero loads entry = ok (loads, entry)
validate_from file index (suc n) loads entry = do
  h ← program_header file index
  elim (h.kind == 1) [
    | false ↦ validate_from file (index + 1) n loads entry
    | true ↦ do
      check_load file index h
      validate_from file (index + 1) n (loads + 1) (entry || holds_entry file h)
  ]

unfoldable pub validate_load_segments : ElfFile → Result ParseError ElfFile
unfolding validate_from
validate_load_segments file = do
  seen ← validate_from file 0 file.program_header_count 0 false
  ensure (not (seen.0 == 0)) missing_load_segment
  ensure seen.1 entry_outside_executable_segment
  ok (record file { load_segment_count = seen.0 })

unfoldable pub parse : List ℕ → Result ParseError ElfFile
unfolding check_ident check_header program_header_table read_u64 validate_load_segments
parse bytes = do
  check_ident bytes
  check_header bytes
  table ← program_header_table bytes
  entry ← read_u64 bytes 24
  validate_load_segments (record {
    bytes = bytes;
    entry = entry;
    program_header_offset = table.0;
    program_header_count = table.1;
    load_segment_count = 0;
  })

unfoldable pub load_segment : ElfFile → ProgramHeader → Option LoadSegment
unfolding get_slice
load_segment file h = elim (checked_add u64_mod h.offset h.file_size) [
  | none ↦ none
  | some end ↦ elim (get_slice file.bytes h.offset h.file_size) [
    | none ↦ none
    | some contents ↦ some (record {
      contents = contents;
      virtual_address = h.virtual_address;
      memory_size = h.memory_size;
      flags = h.flags;
      alignment = h.alignment;
    })
  ]
]

pub record LoadSegments : Type 0 where
  pub file : ElfFile
  pub next_program_header : ℕ
  pub remaining_load_segments : ℕ

unfoldable pub load_segments : ElfFile → LoadSegments
load_segments file = record {
  file = file;
  next_program_header = 0;
  remaining_load_segments = file.load_segment_count;
}

-- The loop of `next` over so many headers; it leaves the iterator behind the last one read.
unfoldable pub next_from : ℕ → LoadSegments → Option LoadSegment × LoadSegments
unfolding program_header load_segment
next_from zero it = (none, it)
next_from (suc n) it =
    let it' : LoadSegments = record it { next_program_header = it.next_program_header + 1 } in
    elim (program_header it.file it.next_program_header) [
      | err e ↦ (none, it')
      | ok h ↦ elim (h.kind == 1) [
        | false ↦ next_from n it'
        | true ↦ (
          load_segment it.file h,
          record it' { remaining_load_segments = it.remaining_load_segments - 1 },
        )
      ]
    ]

unfoldable pub next : LoadSegments → Option LoadSegment × LoadSegments
unfolding next_from
next it = next_from (it.file.program_header_count - it.next_program_header) it
