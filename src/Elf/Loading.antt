-- ===== src/Elf/Loading.antt =====
-- What a parsed ELF file promises.
use slopos.Elf.{ProgramHeader, read_u64}
use slopos.Base.{
  ℕ, ◌+◌, ◌*◌, ◌≤◌, ◌<◌, ◌≡◌, ◌⊎◌, inl, inr, refl, Bool, true, false, List, ok, Result-cases, arith,
  ap, sym, subst, ◌∙◌,
}
use slopos.Elf.Layout.{number_at, header_at, read_number-number_at, program_header_table_at}
use slopos.Elf.File.{
  ElfFile, program_header, holds_entry, check_load, validate_from, validate_load_segments, parse,
  check_ident, check_header, program_header_table,
}
use slopos.Elf.Segments.{
  SegmentIsValid, Holder, check_pair_apart, check_previous_each,
  validate_load_segment-SegmentIsValid,
}
use slopos.Elf.Turns.{check_load_ok, validate_from_each, validate_from_read, validate_from_entry}

-- What a file promises that was read without an error.
pub record Loadable (file : ElfFile) : Type 0 where
  pub read :
      (i : ℕ)
      → i < file.program_header_count
      → program_header file i ≡ ok (header_at file.bytes (file.program_header_offset + i * 56))
  pub valid :
      (i : ℕ) (h : ProgramHeader)
      → i < file.program_header_count
      → program_header file i ≡ ok h
      → h.kind ≡ 1
      → SegmentIsValid file h
  pub apart :
      (i j : ℕ) (h other : ProgramHeader)
      → j < i
      → i < file.program_header_count
      → program_header file i ≡ ok h
      → program_header file j ≡ ok other
      → h.kind ≡ 1
      → other.kind ≡ 1
      → (h.virtual_address + h.memory_size ≤ other.virtual_address)
        ⊎ (other.virtual_address + other.memory_size ≤ h.virtual_address)
  pub entry : Holder file file.program_header_count

-- Every load segment of a file that passes fits the file and the memory and is not both writable
-- and executable, no two of them overlap, and one that is executable holds the entry.
validate_load_segments-Loadable :
    (file checked : ElfFile) → validate_load_segments file ≡ ok checked → Loadable file
unfolding validate_load_segments
validate_load_segments-Loadable file checked e =
    elim (Result-cases (validate_from file 0 file.program_header_count 0 false)) [
      | inr (x, f) ↦ absurd (ground arith)
      | inl (seen, f) ↦ record {
        read = λ i lt.
            validate_from_read file 0 file.program_header_count 0 false seen i f (omega arith)
              (omega arith);
        valid = λ i h lt p load.
            validate_load_segment-SegmentIsValid file h
              (check_load_ok file i h (each seen f i h lt p load)).0;
        apart = λ i j h other earlier lt p q load other_load.
            check_pair_apart h other
              (check_previous_each file h 0 i j other
                (check_load_ok file i h (each seen f i h lt p load)).1 (omega arith) (omega arith)
                q)
              other_load;
        entry =
            entered seen
              (validate_from_entry file 0 file.program_header_count 0 false seen f (ground arith));
      }
    ]
  where
    each :
        (seen : ℕ × Bool)
        → validate_from file 0 file.program_header_count 0 false ≡ ok seen
        → (i : ℕ) (h : ProgramHeader) → i < file.program_header_count
        → program_header file i ≡ ok h
        → h.kind ≡ 1
        → check_load file i h ≡ ok tt
    each seen f i h lt p load =
        validate_from_each file 0 file.program_header_count 0 false seen i h f (omega arith)
          (omega arith) p load

    entered :
        ℕ × Bool
        → (◌≡◌ {A = Bool} false true) ⊎ Holder file (0 + file.program_header_count)
        → Holder file file.program_header_count
    entered seen (inl x) = absurd (ground arith)
    entered seen (inr x) = record {
      i = x.i;
      header = x.header;
      below = omega (arith, x.below);
      read = x.read;
      is_load = x.is_load;
      runs = x.runs;
      from = x.from;
      until = x.until;
    }

-- The number of load segments is not read again.
recounted-Loadable :
    (file : ElfFile) (n : ℕ) → Loadable file → Loadable (record file { load_segment_count = n })
unfolding program_header holds_entry
recounted-Loadable file n l = record {
  valid = λ i h lt p load.
      let v = l.valid i h lt p load in
      record {
        not_empty = v.not_empty;
        covered = v.covered;
        protected = v.protected;
        aligned = v.aligned;
        in_file = v.in_file;
        in_memory = v.in_memory;
        starts = v.starts;
        ends = v.ends;
      };
  read = l.read;
  apart = l.apart;
  entry = record {
    i = l.entry.i;
    header = l.entry.header;
    below = l.entry.below;
    read = l.entry.read;
    is_load = l.entry.is_load;
    runs = l.entry.runs;
    from = l.entry.from;
    until = l.entry.until;
  };
}

checked_file :
    (file checked : ElfFile)
    → validate_load_segments file ≡ ok checked
    → (n : ℕ) × (checked ≡ record file { load_segment_count = n })
unfolding validate_load_segments
checked_file file checked e =
    elim (Result-cases (validate_from file 0 file.program_header_count 0 false)) [
      | inr (x, f) ↦ absurd (ground arith)
      | inl ((n, b), f) ↦ (n, ground arith)
    ]

file_of : List ℕ → ℕ × ℕ → ℕ → ElfFile
file_of bytes table entry = record {
  bytes = bytes;
  entry = entry;
  program_header_offset = table.0;
  program_header_count = table.1;
  load_segment_count = 0;
}

-- In a file that `parse` accepts, the entry, the table of program headers and the fields of each
-- header are the little-endian numbers at their offsets in the bytes. Every load segment fits the
-- file, begins and ends at an address of the lower or the upper 2^47 bytes, is not both writable
-- and executable, and has an alignment of at most 1 or a power of two that its address and offset
-- agree on. No two of them overlap in memory, and one that is executable holds the entry.
pub parse-Loadable :
    (bytes : List ℕ) (file : ElfFile)
    → parse bytes ≡ ok file
    → (file.bytes ≡ bytes)
      × (file.entry ≡ number_at 8 bytes 24)
      × (file.program_header_offset ≡ number_at 8 bytes 32)
      × (file.program_header_count ≡ number_at 2 bytes 56)
      × Loadable file
unfolding parse file_of read_u64
parse-Loadable bytes file e = elim (Result-cases (check_ident bytes)) [
  | inr (x, f) ↦ absurd (ground arith)
  | inl (u, f) ↦ elim (Result-cases (check_header bytes)) [
    | inr (x, g) ↦ absurd (ground arith)
    | inl (w, g) ↦ elim (Result-cases (program_header_table bytes)) [
      | inr (x, k) ↦ absurd (ground arith)
      | inl (table, k) ↦ elim (Result-cases (read_u64 bytes 24)) [
        | inr (x, m) ↦ absurd (ground arith)
        | inl (entry, m) ↦
            let done : validate_load_segments (file_of bytes table entry) ≡ ok file =
              ground arith in
            let (n, same) = checked_file (file_of bytes table entry) file done in
            let (offset_read, count_read) = program_header_table_at bytes table k in
            (
              rw same refl,
              ap (λ (x : ElfFile). x.entry) same ∙ read_number-number_at 8 bytes 24 m,
              ap (λ (x : ElfFile). x.program_header_offset) same ∙ offset_read,
              ap (λ (x : ElfFile). x.program_header_count) same ∙ count_read,
              subst Loadable (sym same) (
                  recounted-Loadable (file_of bytes table entry) n
                    (validate_load_segments-Loadable (file_of bytes table entry) file done)),
            )
      ]
    ]
  ]
]
