-- ===== src/Elf/Turns.antt =====
-- What the loops over the program headers of an ELF file have seen when they end.
use slopos.Elf.{ProgramHeader}
use slopos.Base.{
  ℕ, zero, suc, ◌+◌, ◌*◌, ◌≤◌, ◌<◌, ◌≡◌, ◌==◌, ◌||◌, ◌⊎◌, inl, inr, refl, Bool, true, false, ok,
  Result-cases, Bool-cases, arith, ap, ok-injective, sym, ◌∙◌,
}
use slopos.Elf.Layout.{header_at, program_header-header_at}
use slopos.Elf.File.{
  ElfFile, program_header, validate_load_segment, check_previous, holds_entry, check_load,
  validate_from,
}
use slopos.Elf.Segments.{Holder, holds_entry_ok, same_index}

pub check_load_ok :
    (file : ElfFile) (i : ℕ) (h : ProgramHeader)
    → check_load file i h ≡ ok tt
    → (validate_load_segment file h ≡ ok tt) × (check_previous file h 0 i ≡ ok tt)
unfolding check_load
check_load_ok file i h e = elim (Result-cases (validate_load_segment file h)) [
  | inr (x, f) ↦ absurd (ground arith)
  | inl (u, f) ↦ elim (Result-cases (check_previous file h 0 i)) [
    | inr (x, g) ↦ absurd (ground arith)
    | inl (w, g) ↦ (f, g)
  ]
]

-- One turn of the outer loop: the header that it reads, its checks, and the turns that follow.
record Turn (file : ElfFile) (index n loads : ℕ) (entry : Bool) (seen : ℕ × Bool) : Type 0 where
  pub header : ProgramHeader
  pub read : program_header file index ≡ ok header
  pub checked : header.kind ≡ 1 → check_load file index header ≡ ok tt
  pub loads_next : ℕ
  pub entry_next : Bool
  pub entry_kept :
      entry_next ≡ true → (entry ≡ true) ⊎ ((header.kind ≡ 1) × (holds_entry file header ≡ true))
  pub rest : validate_from file (index + 1) n loads_next entry_next ≡ ok seen

validate_from-Turn :
    (file : ElfFile) (index n loads : ℕ) (entry : Bool) (seen : ℕ × Bool)
    → validate_from file index (suc n) loads entry ≡ ok seen
    → Turn file index n loads entry seen
unfolding validate_from
validate_from-Turn file index n loads entry seen e =
    elim (Result-cases (program_header file index)) [
      | inr (x, q) ↦ absurd (ground arith)
      | inl (o, q) ↦ elim (Bool-cases (o.kind == 1)) [
        | inr k ↦ record {
          header = o;
          read = q;
          checked = λ load. absurd (ground arith);
          loads_next = loads;
          entry_next = entry;
          entry_kept = λ seen_entry. inl seen_entry;
          rest = ground arith;
        }
        | inl k ↦ elim (Result-cases (check_load file index o)) [
          | inr (x, c) ↦ absurd (ground arith)
          | inl (u, c) ↦ record {
            header = o;
            read = q;
            checked = λ load. c;
            loads_next = loads + 1;
            entry_next = entry || holds_entry file o;
            entry_kept =
                λ seen_entry. either entry (holds_entry file o) (same_index o.kind 1 k) seen_entry;
            rest = ground arith;
          }
        ]
      ]
    ]
  where
    either : {P : Type 0} (a b : Bool) → P → (a || b) ≡ true → (a ≡ true) ⊎ (P × (b ≡ true))
    either true b p h = inl refl
    either false b p h = inr (p, h)

module _ (file : ElfFile) where
  -- The outer loop checks each load segment.
  pub validate_from_each :
      (index n loads : ℕ) (entry : Bool) (seen : ℕ × Bool) (i : ℕ) (h : ProgramHeader)
      → validate_from file index n loads entry ≡ ok seen
      → index ≤ i
      → i < index + n
      → program_header file i ≡ ok h
      → h.kind ≡ 1
      → check_load file i h ≡ ok tt
  validate_from_each index zero loads entry seen i h e lo hi p load = absurd (omega arith)
  validate_from_each index (suc n) loads entry seen i h e lo hi p load =
      let t = validate_from-Turn file index n loads entry seen e in
      elim (Bool-cases (i == index)) [
        | inl s ↦
            let same = same_index i index s in
            let found = ok-injective (sym p ∙ ap (program_header file) same ∙ t.read) in
            ap (λ k. check_load file k h) same
            ∙ ap (check_load file index) found
            ∙ t.checked (ap (λ (x : ProgramHeader). x.kind) (sym found) ∙ load)
        | inr s ↦
            validate_from_each (index + 1) n t.loads_next t.entry_next seen i h t.rest
              (ground arith) (omega arith) p load
      ]

  -- The outer loop reads each header.
  pub validate_from_read :
      (index n loads : ℕ) (entry : Bool) (seen : ℕ × Bool) (i : ℕ)
      → validate_from file index n loads entry ≡ ok seen
      → index ≤ i
      → i < index + n
      → program_header file i ≡ ok (header_at file.bytes (file.program_header_offset + i * 56))
  validate_from_read index zero loads entry seen i e lo hi = absurd (omega arith)
  validate_from_read index (suc n) loads entry seen i e lo hi =
      let t = validate_from-Turn file index n loads entry seen e in
      elim (Bool-cases (i == index)) [
        | inl s ↦
            let found = ap (program_header file) (same_index i index s) ∙ t.read in
            found ∙ ap ok (program_header-header_at file i t.header found)
        | inr s ↦
            validate_from_read (index + 1) n t.loads_next t.entry_next seen i t.rest (ground arith)
              (omega arith)
      ]

  -- The entry is in an executable segment that the loop saw.
  pub validate_from_entry :
      (index n loads : ℕ) (entry : Bool) (seen : ℕ × Bool)
      → validate_from file index n loads entry ≡ ok seen
      → seen.1 ≡ true
      → (entry ≡ true) ⊎ Holder file (index + n)
  unfolding validate_from
  validate_from_entry index zero loads entry seen e found = inl (ground arith)
  validate_from_entry index (suc n) loads entry seen e found =
      let t = validate_from-Turn file index n loads entry seen e in
      elim (validate_from_entry (index + 1) n t.loads_next t.entry_next seen t.rest found) [
        | inr x ↦ inr (record {
          i = x.i;
          header = x.header;
          below = omega (arith, x.below);
          read = x.read;
          is_load = x.is_load;
          runs = x.runs;
          from = x.from;
          until = x.until;
        })
        | inl x ↦ elim (t.entry_kept x) [
          | inl y ↦ inl y
          | inr (k, y) ↦ inr (record {
            i = index;
            header = t.header;
            below = omega arith;
            read = t.read;
            is_load = k;
            runs = (holds_entry_ok file t.header y).0;
            from = (holds_entry_ok file t.header y).1;
            until = (holds_entry_ok file t.header y).2;
          })
        ]
      ]
