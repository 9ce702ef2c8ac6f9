-- ===== src/Elf/Layout.antt =====
-- crates/elf/src/lib.rs: where the fields of a program header stand in the file.
use slopos.Base.{
  ℕ, zero, suc, ◌+◌, ◌*◌, ◌<◌, ◌≤◌, ◌≡◌, List, [], ◌∷◌, length, take, drop, get_elem?, some, none,
  ok, ok-injective, ok_of_bind, ok_of_ensure, arith, ap, sym, ltb, ok_or, checked_mul, checked_add,
  u64_mod, ◌∙◌, refl,
}
use slopos.Elf.{
  program_header_table_out_of_bounds, ProgramHeader, read_number, read_u16, read_u32, read_u64,
  get_slice, from_le_bytes,
}
use slopos.Elf.File.{ElfFile, program_header, program_header_table}

unfoldable pub byte_at : List ℕ → ℕ → ℕ
byte_at bytes i = elim (get_elem? bytes i) [ none ↦ 0 | some b ↦ b ]

-- The number of some bytes from a place on, the lowest byte first
unfoldable pub number_at : ℕ → List ℕ → ℕ → ℕ
unfolding byte_at
number_at zero bytes offset = 0
number_at (suc size) bytes offset = byte_at bytes offset + 256 * number_at size bytes (offset + 1)

-- The 56 bytes of an entry of the program header table
unfoldable pub header_at : List ℕ → ℕ → ProgramHeader
header_at bytes start = record {
  kind = number_at 4 bytes start;
  flags = number_at 4 bytes (start + 4);
  offset = number_at 8 bytes (start + 8);
  virtual_address = number_at 8 bytes (start + 16);
  file_size = number_at 8 bytes (start + 32);
  memory_size = number_at 8 bytes (start + 40);
  alignment = number_at 8 bytes (start + 48);
}

drop-byte_at :
    (bytes : List ℕ) (i : ℕ)
    → i < length bytes
    → drop i bytes ≡ byte_at bytes i ∷ drop (suc i) bytes
unfolding byte_at
drop-byte_at [] i h = elim h [ ]
drop-byte_at (b ∷ bs) zero h = refl
drop-byte_at (b ∷ bs) (suc i) h = drop-byte_at bs i (omega arith)

from_le_bytes-number_at :
    (size : ℕ) (bytes : List ℕ) (offset : ℕ)
    → offset + size ≤ length bytes
    → from_le_bytes (take size (drop offset bytes)) ≡ number_at size bytes offset
unfolding from_le_bytes number_at
from_le_bytes-number_at zero bytes offset h = refl
from_le_bytes-number_at (suc size) bytes offset h =
    let next : suc offset ≡ offset + 1 = omega arith in
    rw (drop-byte_at bytes offset (omega arith), next)
      (ap (λ n. byte_at bytes offset + 256 * n)
        (from_le_bytes-number_at size bytes (offset + 1) (omega arith)))

pub read_number-number_at :
    (size : ℕ) (bytes : List ℕ) (offset : ℕ) {v : ℕ}
    → read_number size bytes offset ≡ ok v
    → v ≡ number_at size bytes offset
unfolding read_number get_slice
read_number-number_at size bytes offset h =
    ground (arith, from_le_bytes-number_at size bytes offset)

read_fields :
    (bytes : List ℕ) (s : ℕ) (h : ProgramHeader)
    → read_number 4 bytes s ≡ ok h.kind
    → read_number 4 bytes (s + 4) ≡ ok h.flags
    → read_number 8 bytes (s + 8) ≡ ok h.offset
    → read_number 8 bytes (s + 16) ≡ ok h.virtual_address
    → read_number 8 bytes (s + 32) ≡ ok h.file_size
    → read_number 8 bytes (s + 40) ≡ ok h.memory_size
    → read_number 8 bytes (s + 48) ≡ ok h.alignment
    → h ≡ header_at bytes s
unfolding header_at
read_fields bytes s h k f o v z y l =
    rw
      (
        sym (read_number-number_at 4 bytes s k),
        sym (read_number-number_at 4 bytes (s + 4) f),
        sym (read_number-number_at 8 bytes (s + 8) o),
        sym (read_number-number_at 8 bytes (s + 16) v),
        sym (read_number-number_at 8 bytes (s + 32) z),
        sym (read_number-number_at 8 bytes (s + 40) y),
        sym (read_number-number_at 8 bytes (s + 48) l),
      )
      refl

pub program_header-header_at :
    (file : ElfFile) (i : ℕ) (h : ProgramHeader)
    → program_header file i ≡ ok h
    → h ≡ header_at file.bytes (file.program_header_offset + i * 56)
unfolding program_header header_at read_u32 read_u64
program_header-header_at file i h e =
    let start = file.program_header_offset + i * 56 in
    let a = ok_of_ensure (ltb i file.program_header_count) program_header_table_out_of_bounds _ e in
    let (d, distance, b) =
      ok_of_bind (ok_or (checked_mul u64_mod i 56) program_header_table_out_of_bounds) _ a.1 in
    let (s, begins, c) =
      ok_of_bind
        (ok_or (checked_add u64_mod file.program_header_offset d)
          program_header_table_out_of_bounds)
        _ b in
    let at : s ≡ start = ground arith in
    let (kind, k, r) = ok_of_bind (read_number 4 file.bytes s) _ c in
    let (flags, f, r2) = ok_of_bind (read_number 4 file.bytes (s + 4)) _ r in
    let (offset, o, r3) = ok_of_bind (read_number 8 file.bytes (s + 8)) _ r2 in
    let (address, v, r4) = ok_of_bind (read_number 8 file.bytes (s + 16)) _ r3 in
    let (file_size, z, r5) = ok_of_bind (read_number 8 file.bytes (s + 32)) _ r4 in
    let (memory_size, y, r6) = ok_of_bind (read_number 8 file.bytes (s + 40)) _ r5 in
    let (alignment, l, r7) = ok_of_bind (read_number 8 file.bytes (s + 48)) _ r6 in
    sym (ok-injective r7)
    ∙ read_fields file.bytes s
        (record {
          kind = kind;
          flags = flags;
          offset = offset;
          virtual_address = address;
          file_size = file_size;
          memory_size = memory_size;
          alignment = alignment;
        })
        k f o v z y l
    ∙ ap (header_at file.bytes) at

pub program_header_table_at :
    (bytes : List ℕ) (table : ℕ × ℕ)
    → program_header_table bytes ≡ ok table
    → (table.0 ≡ number_at 8 bytes 32) × (table.1 ≡ number_at 2 bytes 56)
unfolding program_header_table read_u16 read_u64
program_header_table_at bytes table e =
    let (offset, o, r) = ok_of_bind (read_number 8 bytes 32) _ e in
    let (size, z, r2) = ok_of_bind (read_number 2 bytes 54) _ r in
    let (count, c, r3) = ok_of_bind (read_number 2 bytes 56) _ r2 in
    let same : (offset, count) ≡ table = ground arith in
    (
      ap (λ (p : ℕ × ℕ). p.0) (sym same) ∙ read_number-number_at 8 bytes 32 o,
      ap (λ (p : ℕ × ℕ). p.1) (sym same) ∙ read_number-number_at 2 bytes 56 c,
    )
