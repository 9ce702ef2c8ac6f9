-- ===== src/Tests/Programs.antt =====
-- The reader of ELF files of crates/elf/src/lib.rs.
use slopos.Base.{ℕ, ◌≡◌, refl, List, [], ◌∷◌, ok, err, set}
use slopos.Elf.{writable_executable_segment}
use slopos.Elf.File.{ElfFile, parse}
use slopos.Elf.Layout.{number_at}
use slopos.Elf.Loading.{Loadable, parse-Loadable}

-- One executable segment: the 120 bytes of the file at 0x400000.
abbrev program : List ℕ
program =
    127 ∷ 69 ∷ 76 ∷ 70 ∷ 2 ∷ 1 ∷ 1 ∷ 0 ∷ 0 ∷ 0 ∷ 0 ∷ 0 ∷ 0 ∷ 0 ∷ 0 ∷ 0 ∷ 2 ∷ 0 ∷ 62 ∷ 0 ∷ 1 ∷ 0 ∷ 0
    ∷ 0 ∷ 64 ∷ 0 ∷ 64 ∷ 0 ∷ 0 ∷ 0 ∷ 0 ∷ 0 ∷ 64 ∷ 0 ∷ 0 ∷ 0 ∷ 0 ∷ 0 ∷ 0 ∷ 0 ∷ 0 ∷ 0 ∷ 0 ∷ 0 ∷ 0 ∷ 0
    ∷ 0 ∷ 0 ∷ 0 ∷ 0 ∷ 0 ∷ 0 ∷ 64 ∷ 0 ∷ 56 ∷ 0 ∷ 1 ∷ 0 ∷ 0 ∷ 0 ∷ 0 ∷ 0 ∷ 0 ∷ 0 ∷ 1 ∷ 0 ∷ 0 ∷ 0 ∷ 5
    ∷ 0 ∷ 0 ∷ 0 ∷ 0 ∷ 0 ∷ 0 ∷ 0 ∷ 0 ∷ 0 ∷ 0 ∷ 0 ∷ 0 ∷ 0 ∷ 64 ∷ 0 ∷ 0 ∷ 0 ∷ 0 ∷ 0 ∷ 0 ∷ 0 ∷ 0 ∷ 0 ∷ 0
    ∷ 0 ∷ 0 ∷ 0 ∷ 120 ∷ 0 ∷ 0 ∷ 0 ∷ 0 ∷ 0 ∷ 0 ∷ 0 ∷ 120 ∷ 0 ∷ 0 ∷ 0 ∷ 0 ∷ 0 ∷ 0 ∷ 0 ∷ 0 ∷ 16 ∷ 0 ∷ 0
    ∷ 0 ∷ 0 ∷ 0 ∷ 0 ∷ []

abbrev loaded : ElfFile
loaded = record {
  bytes = program;
  entry = 4194368;
  program_header_offset = 64;
  program_header_count = 1;
  load_segment_count = 1;
}

accepts_program : parse program ≡ ok loaded
unfolding parse
accepts_program = refl

-- The same segment with the flag that makes it writable.
refuses_writable : parse (set program 68 7) ≡ err writable_executable_segment
unfolding parse
refuses_writable = refl

parse-Loadable_example :
    (loaded.bytes ≡ program)
    × (loaded.entry ≡ number_at 8 program 24)
    × (loaded.program_header_offset ≡ number_at 8 program 32)
    × (loaded.program_header_count ≡ number_at 2 program 56)
    × Loadable loaded
parse-Loadable_example = parse-Loadable program loaded accepts_program
