-- ===== src/Acpi.antt =====
-- crates/acpi/src/lib.rs: the root pointer, the header that all tables share, and the root table.
-- The MADT is a child module.
pub mod Madt
pub mod Entries
pub mod Adding
pub mod Tables
pub mod Reading
use slopos.Base.{
  ℕ, ◌+◌, ◌-◌, ◌*◌, ◌/◌, ◌%◌, ◌==◌, Bool, true, false, ◌&&◌, List, [], ◌∷◌, length, take, get_elem?,
  Option, some, none, Result, ok, err, ◌>>=◌, ◌>>◌, ok_or, to_option, ensure, leb, ltb,
  if◌then◌else◌, bytes_eq, u64_mod,
}
use slopos.Elf.{get_slice, from_le_bytes}

pub data ParseError : Type 0 where
  truncated invalid_signature invalid_checksum invalid_length : ParseError
  invalid_root_table invalid_madt_entry : ParseError
  too_many_io_apics too_many_interrupt_overrides : ParseError

-- What ends a parse early: an error, or the panic of an index out of bounds.
pub data Fault : Type 0 where
  refused : ParseError → Fault
  panicked : Fault

abbrev pub sdt_header_size : ℕ
sdt_header_size = 36

abbrev pub max_table_size : ℕ
max_table_size = 1048576

-- `bytes[index]`
unfoldable pub byte_at : List ℕ → ℕ → Result Fault ℕ
byte_at bytes index = ok_or (get_elem? bytes index) panicked

-- `&bytes[..count]`
unfoldable pub prefix : List ℕ → ℕ → Result Fault (List ℕ)
prefix bytes count = if leb count (length bytes) then ok (take count bytes) else err panicked

-- `read_u16`, `read_u32` and `read_u64`
unfoldable pub read_number : ℕ → List ℕ → ℕ → Result Fault ℕ
unfolding get_slice from_le_bytes
read_number size bytes offset = do
  value ← ok_or (get_slice bytes offset size) (refused truncated)
  ok (from_le_bytes value)

unfoldable pub wrapping_sum : ℕ → List ℕ → ℕ
wrapping_sum sum [] = sum
wrapping_sum sum (b ∷ bs) = wrapping_sum ((sum + b) % 256) bs

unfoldable pub checksum_valid : List ℕ → Bool
unfolding wrapping_sum
checksum_valid bytes = wrapping_sum 0 bytes == 0

pub data RootKind : Type 0 where
  rsdt xsdt : RootKind

pub record Rsdp : Type 0 where
  pub root_kind : RootKind
  pub root_address : ℕ

-- b"RSD PTR "
abbrev pub rsd_ptr : List ℕ
rsd_ptr = 82 ∷ 83 ∷ 68 ∷ 32 ∷ 80 ∷ 84 ∷ 82 ∷ 32 ∷ []

-- The part of Rsdp::parse for revision 2 and later
unfoldable pub parse_extended : List ℕ → Result Fault Rsdp
unfolding prefix read_number checksum_valid
parse_extended bytes = do
  ensure (leb 36 (length bytes)) (refused truncated)
  size ← read_number 4 bytes 20
  ensure (leb 36 size && (leb size 4096 && leb size (length bytes))) (refused invalid_length)
  whole ← prefix bytes size
  ensure (checksum_valid whole) (refused invalid_checksum)
  address ← read_number 8 bytes 24
  if address == 0
      then err (refused invalid_root_table)
      else ok (record { root_kind = xsdt; root_address = address })

unfoldable pub parse_first : List ℕ → Result Fault Rsdp
unfolding read_number
parse_first bytes = do
  address ← read_number 4 bytes 16
  if address == 0
      then err (refused invalid_root_table)
      else ok (record { root_kind = rsdt; root_address = address })

-- Rsdp::parse
unfoldable pub parse_rsdp : List ℕ → Result Fault Rsdp
unfolding byte_at prefix checksum_valid parse_extended parse_first
parse_rsdp bytes = do
  ensure (leb 20 (length bytes)) (refused truncated)
  signature ← prefix bytes 8
  ensure (bytes_eq signature rsd_ptr) (refused invalid_signature)
  head ← prefix bytes 20
  ensure (checksum_valid head) (refused invalid_checksum)
  revision ← byte_at bytes 15
  if leb 2 revision then parse_extended bytes else parse_first bytes

pub record SdtHeader : Type 0 where
  pub signature : List ℕ
  pub length : ℕ
  pub revision : ℕ

unfoldable pub sdt_length : List ℕ → Result Fault ℕ
unfolding read_number
sdt_length header = do
  ensure (leb sdt_header_size (length header)) (refused truncated)
  size ← read_number 4 header 4
  ensure (leb sdt_header_size size && leb size max_table_size) (refused invalid_length)
  ok size

unfoldable pub parse_sdt : List ℕ → Result Fault SdtHeader
unfolding byte_at prefix checksum_valid sdt_length
parse_sdt bytes = do
  size ← sdt_length bytes
  ensure (leb size (length bytes)) (refused truncated)
  table ← prefix bytes size
  ensure (checksum_valid table) (refused invalid_checksum)
  signature ← prefix bytes 4
  revision ← byte_at bytes 8
  ok (record { signature = signature; length = size; revision = revision })

pub record RootTable : Type 0 where
  pub bytes : List ℕ
  pub entry_width : ℕ
  pub entry_count : ℕ

-- b"RSDT" and b"XSDT"
unfoldable pub root_signature : RootKind → List ℕ
root_signature rsdt = 82 ∷ 83 ∷ 68 ∷ 84 ∷ []
root_signature xsdt = 88 ∷ 83 ∷ 68 ∷ 84 ∷ []

unfoldable pub root_width : RootKind → ℕ
root_width rsdt = 4
root_width xsdt = 8

-- RootTable::parse
unfoldable pub parse_root : List ℕ → RootKind → Result Fault RootTable
unfolding prefix parse_sdt root_signature root_width
parse_root bytes kind = do
  header ← parse_sdt bytes
  ensure (bytes_eq header.signature (root_signature kind)) (refused invalid_signature)
  ensure ((header.length - sdt_header_size) % root_width kind == 0) (refused invalid_root_table)
  table ← prefix bytes header.length
  ok (record {
    bytes = table;
    entry_width = root_width kind;
    entry_count = (header.length - sdt_header_size) / root_width kind;
  })

unfoldable pub entry : RootTable → ℕ → Option ℕ
unfolding read_number
entry t index =
    if leb t.entry_count index
    then none
    else if t.entry_width == 8
    then to_option (read_number 8 t.bytes (sdt_header_size + index * t.entry_width))
    else to_option (read_number 4 t.bytes (sdt_header_size + index * t.entry_width))
