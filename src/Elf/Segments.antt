-- ===== src/Elf/Segments.antt =====
-- What a parsed ELF file promises of its load segments.
use slopos.Base.{
  ℕ, zero, suc, ◌+◌, ◌-◌, ◌^◌, ◌/◌, ◌%◌, ◌≤◌, ◌<◌, ◌≡◌, ◌==◌, ◌&&◌, ◌||◌, ltb, ensure, Bool, Result,
  ◌⊎◌, inl, inr, true, false, length, ok, ok_of_bind, Result-cases, Bool-cases, arith, ◌>>◌, leb,
  u64_mod, ap, ok-injective, sym, subst, ◌∙◌,
}
use slopos.Elf.{
  ParseError, invalid_alignment, misaligned_load_segment, is_power_below, ProgramHeader, executable,
  writable, is_canonical,
}
use slopos.Elf.File.{
  ElfFile, program_header, validate_load_segment, check_alignment, check_shape, check_ranges,
  segments_overlap, check_pair, check_previous, holds_entry,
}

-- The addresses of the lower and of the upper half, of 2^47 bytes each
unfoldable pub IsCanonical : ℕ → Type 0
IsCanonical address = (address < 2 ^ 47) ⊎ (2 ^ 64 ≤ address + 2 ^ 47)

-- A load segment fits the file and the address space, and is not both writable and executable.
pub record SegmentIsValid (file : ElfFile) (h : ProgramHeader) : Type 0 where
  pub not_empty : 1 ≤ h.memory_size
  pub covered : h.file_size ≤ h.memory_size
  pub protected : (h.flags / 2 % 2 ≡ 0) ⊎ (h.flags % 2 ≡ 0)
  pub aligned :
      1 < h.alignment
      → ((j : ℕ) × (h.alignment ≡ 2 ^ j))
        × (h.virtual_address % h.alignment ≡ h.offset % h.alignment)
  pub in_file : h.offset + h.file_size ≤ length file.bytes
  pub in_memory : h.virtual_address + h.memory_size < u64_mod
  pub starts : IsCanonical h.virtual_address
  pub ends : IsCanonical (h.virtual_address + h.memory_size - 1)

-- What the two groups of checks have seen.
check_shape_ok :
    (h : ProgramHeader)
    → check_shape h ≡ ok tt
    → (1 ≤ h.memory_size)
      × (h.file_size ≤ h.memory_size)
      × ((writable h.flags && executable h.flags) ≡ false)
unfolding check_shape
check_shape_ok h e = (ground arith, ground arith, ground arith)

check_ranges_ok :
    (file : ElfFile) (h : ProgramHeader)
    → check_ranges file h ≡ ok tt
    → (h.offset + h.file_size ≤ length file.bytes)
      × (h.virtual_address + h.memory_size < u64_mod)
      × (is_canonical h.virtual_address ≡ true)
      × (is_canonical (h.virtual_address + h.memory_size - 1) ≡ true)
unfolding check_ranges
check_ranges_ok file h e = (ground arith, ground arith, ground arith, ground arith)

canonical : (address : ℕ) → is_canonical address ≡ true → IsCanonical address
unfolding is_canonical IsCanonical
canonical address e = elim (Bool-cases (leb address 140737488355327)) [
  | inl b ↦ inl (ground arith)
  | inr b ↦ inr (ground arith)
]

apart_rights :
    (flags : ℕ)
    → (writable flags && executable flags) ≡ false
    → (flags / 2 % 2 ≡ 0) ⊎ (flags % 2 ≡ 0)
unfolding writable executable
apart_rights flags e = elim (Bool-cases (flags % 2 == 1)) [
  | inl b ↦ inl (ground arith)
  | inr b ↦ inr (ground arith)
]

pub same_index : (i j : ℕ) → (i == j) ≡ true → i ≡ j
same_index i j e = ground arith

tests_hold :
    (asked power congruent : Bool)
    → (elim asked as (λ b. Result ParseError (Unit {0})) [
      | false ↦ ok tt
      | true ↦ ensure power invalid_alignment >> ensure congruent misaligned_load_segment
    ])
      ≡ ok tt
    → asked ≡ true
    → (power ≡ true) × (congruent ≡ true)
tests_hold asked power congruent e t = (ground arith, ground arith)

is_power_below-power : (k n : ℕ) → is_power_below k n ≡ true → (j : ℕ) × (n ≡ 2 ^ j)
unfolding is_power_below
is_power_below-power zero n e = absurd (ground arith)
is_power_below-power (suc k) n e = elim (Bool-cases (n == 2 ^ k)) [
  | inl b ↦ (k, same_index n (2 ^ k) b)
  | inr b ↦ is_power_below-power k n (rest b e)
]
  where
    rest : {a c : Bool} → a ≡ false → (a || c) ≡ true → c ≡ true
    rest b h = ground arith

check_alignment_ok :
    (h : ProgramHeader)
    → check_alignment h ≡ ok tt
    → 1 < h.alignment
    → ((j : ℕ) × (h.alignment ≡ 2 ^ j)) × (h.virtual_address % h.alignment ≡ h.offset % h.alignment)
unfolding check_alignment
check_alignment_ok h e big =
    let (power, congruent) =
      tests_hold (ltb 1 h.alignment) (is_power_below 64 h.alignment)
        (h.virtual_address % h.alignment == h.offset % h.alignment) e (large h.alignment big) in
    (
      is_power_below-power 64 h.alignment power,
      same_index (h.virtual_address % h.alignment) (h.offset % h.alignment) congruent,
    )
  where
    large : (a : ℕ) → 1 < a → ltb 1 a ≡ true
    large a b = ground arith

pub validate_load_segment-SegmentIsValid :
    (file : ElfFile) (h : ProgramHeader)
    → validate_load_segment file h ≡ ok tt
    → SegmentIsValid file h
unfolding validate_load_segment
validate_load_segment-SegmentIsValid file h e =
    let (u, shape, e') =
      ok_of_bind (check_shape h) (λ done. check_alignment h >> check_ranges file h) e in
    let (w, aligned, ranges) = ok_of_bind (check_alignment h) (λ done. check_ranges file h) e' in
    let (not_empty, covered, protected) = check_shape_ok h shape in
    let (in_file, in_memory, starts, ends) = check_ranges_ok file h ranges in
    record {
      not_empty = not_empty;
      covered = covered;
      protected = apart_rights h.flags protected;
      aligned = check_alignment_ok h aligned;
      in_file = in_file;
      in_memory = in_memory;
      starts = canonical h.virtual_address starts;
      ends = canonical (h.virtual_address + h.memory_size - 1) ends;
    }

-- An executable load segment that holds the entry, among the first headers.
pub record Holder (file : ElfFile) (n : ℕ) : Type 0 where
  pub i : ℕ
  pub header : ProgramHeader
  pub below : i < n
  pub read : program_header file i ≡ ok header
  pub is_load : header.kind ≡ 1
  pub runs : header.flags % 2 ≡ 1
  pub from : header.virtual_address ≤ file.entry
  pub until : file.entry < header.virtual_address + header.memory_size

pub holds_entry_ok :
    (file : ElfFile) (h : ProgramHeader)
    → holds_entry file h ≡ true
    → (h.flags % 2 ≡ 1)
      × (h.virtual_address ≤ file.entry)
      × (file.entry < h.virtual_address + h.memory_size)
unfolding holds_entry executable
holds_entry_ok file h e = (ground arith, ground arith, ground arith)

pub check_pair_apart :
    (h other : ProgramHeader)
    → check_pair h other ≡ ok tt
    → other.kind ≡ 1
    → (h.virtual_address + h.memory_size ≤ other.virtual_address)
      ⊎ (other.virtual_address + other.memory_size ≤ h.virtual_address)
unfolding check_pair segments_overlap
check_pair_apart h other e load =
    elim (Bool-cases (leb (h.virtual_address + h.memory_size) other.virtual_address)) [
      | inl b ↦ inl (ground arith)
      | inr b ↦ inr (ground arith)
    ]

pub check_previous_each :
    (file : ElfFile) (h : ProgramHeader) (from n i : ℕ) (other : ProgramHeader)
    → check_previous file h from n ≡ ok tt
    → from ≤ i
    → i < from + n
    → program_header file i ≡ ok other
    → check_pair h other ≡ ok tt
unfolding check_previous
check_previous_each file h from zero i other e lo hi p = absurd (omega arith)
check_previous_each file h from (suc n) i other e lo hi p =
    elim (Result-cases (program_header file from)) [
      | inr (x, q) ↦ absurd (ground arith)
      | inl (o, q) ↦ elim (Result-cases (check_pair h o)) [
        | inr (x, c) ↦ absurd (ground arith)
        | inl (u, c) ↦ elim (Bool-cases (i == from)) [
          | inl s ↦
              subst (λ x. check_pair h x ≡ ok tt)
                (sym (ok-injective (sym p ∙ ap (program_header file) (same_index i from s) ∙ q))) c
          | inr s ↦
              check_previous_each file h (from + 1) n i other (ground arith) (ground arith)
                (omega arith) p
        ]
      ]
    ]
