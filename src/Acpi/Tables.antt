-- ===== src/Acpi/Tables.antt =====
-- crates/acpi/src/lib.rs: the header of a table, and the entries of the root table.
use slopos.Base.{
  ℕ, ◌+◌, ◌-◌, ◌*◌, ◌/◌, ◌%◌, ◌≤◌, ◌<◌, ◌≡◌, ◌==◌, ◌⊎◌, refl, sym, ◌∙◌, inl, inr, true, false, ◌&&◌,
  List, length, length-take, take, drop, slice-take, some, none, Result, ok, err, Bool-cases, arith,
  leb, get_elem?-some, ok_of_bind, ok_of_ensure, bytes_eq, ok-injective, bytes_eq→eq, subst,
}
use slopos.Elf.{get_slice, from_le_bytes}
use slopos.Acpi.{
  ParseError, Fault, refused, truncated, invalid_checksum, invalid_length, byte_at, prefix,
  read_number, SdtHeader, sdt_length, parse_sdt, checksum_valid, sdt_header_size, max_table_size,
  RootKind, rsdt, xsdt, RootTable, root_signature, root_width, parse_root, entry,
}

pub read_number_total :
    (size : ℕ) (bytes : List ℕ) (offset : ℕ)
    → offset + size ≤ length bytes
    → read_number size bytes offset ≡ ok (from_le_bytes (take size (drop offset bytes)))
unfolding read_number get_slice
read_number_total size bytes offset h = ground arith

-- A header that is accepted: its length covers the header and is covered by the bytes, whose sum
-- over that length is 0.
pub record IsTable (bytes : List ℕ) (header : SdtHeader) : Type 0 where
  pub long : sdt_header_size ≤ header.length
  pub small : header.length ≤ max_table_size
  pub inside : header.length ≤ length bytes
  pub says : header.length ≡ from_le_bytes (take 4 (drop 4 bytes))
  pub signature : header.signature ≡ take 4 bytes
  pub sums : checksum_valid (take header.length bytes) ≡ true

pub data Headed (bytes : List ℕ) : Result Fault SdtHeader → Type 0 where
  headed : (header : SdtHeader) → IsTable bytes header → Headed bytes (ok header)
  unheaded : (x : ParseError) → Headed bytes (err (refused x))

pub parse_sdt-Headed : (bytes : List ℕ) → Headed bytes (parse_sdt bytes)
unfolding parse_sdt sdt_length prefix byte_at
parse_sdt-Headed bytes = elim (Bool-cases (leb sdt_header_size (length bytes))) [
  | inr f ↦ rw f (unheaded truncated)
  | inl f ↦
      let size = from_le_bytes (take 4 (drop 4 bytes)) in
      rw (f, read_number_total 4 bytes 4 (ground arith))
        (elim (Bool-cases (leb sdt_header_size size && leb size max_table_size)) [
          | inr g ↦ rw g (unheaded invalid_length)
          | inl g ↦ rw g (elim (Bool-cases (leb size (length bytes))) [
            | inr h ↦ rw h (unheaded truncated)
            | inl h ↦ rw h (elim (Bool-cases (checksum_valid (take size bytes))) [
              | inr i ↦ rw i (unheaded invalid_checksum)
              | inl i ↦
                  let (b, j) = get_elem?-some bytes 8 (ground arith) in
                  let four : leb 4 (length bytes) ≡ true = ground arith in
                  rw (i, four, j)
                    (headed _ (record {
                      long = ground arith;
                      small = ground arith;
                      inside = ground arith;
                      says = refl;
                      signature = refl;
                      sums = i;
                    }))
            ])
          ])
        ])
]

pub Headed-cases :
    {bytes : List ℕ} {r : Result Fault SdtHeader}
    → Headed bytes r
    → ((header : SdtHeader) × (r ≡ ok header) × IsTable bytes header)
      ⊎ ((x : ParseError) × (r ≡ err (refused x)))
Headed-cases (headed header t) = inl (header, refl, t)
Headed-cases (unheaded x) = inr (x, refl)

-- What a root table that was read holds: after the header, exactly `entry_count` addresses.
pub record IsRoot (bytes : List ℕ) (kind : RootKind) (t : RootTable) : Type 0 where
  pub header : SdtHeader
  pub accepted : parse_sdt bytes ≡ ok header
  pub signature : take 4 bytes ≡ root_signature kind
  pub fills : sdt_header_size + t.entry_count * root_width kind ≡ header.length
  pub within :
      (index : ℕ)
      → index < t.entry_count
      → entry t index
        ≡ some (
            from_le_bytes
              (take (root_width kind) (drop (sdt_header_size + index * root_width kind) bytes)))
  pub beyond : (index : ℕ) → t.entry_count ≤ index → entry t index ≡ none

root_entry :
    (bytes : List ℕ) (kind : RootKind) (size count index : ℕ)
    → size ≤ length bytes
    → sdt_header_size + count * root_width kind ≡ size
    → index < count
    → entry
        (record { bytes = take size bytes; entry_width = root_width kind; entry_count = count })
        index
      ≡ some (
          from_le_bytes
            (take (root_width kind) (drop (sdt_header_size + index * root_width kind) bytes)))
unfolding entry root_width
root_entry bytes rsdt size count index le fills lt =
    let live : leb count index ≡ false = ground arith in
    let at = sdt_header_size + index * 4 in
    rw
      (
        live,
        read_number_total 4 (take size bytes) at (omega (arith, length-take size bytes)),
        slice-take size at 4 bytes (omega arith),
      )
      refl
root_entry bytes xsdt size count index le fills lt =
    let live : leb count index ≡ false = ground arith in
    let at = sdt_header_size + index * 8 in
    rw
      (
        live,
        read_number_total 8 (take size bytes) at (omega (arith, length-take size bytes)),
        slice-take size at 8 bytes (omega arith),
      )
      refl

root_beyond :
    (bytes : List ℕ) (width count index : ℕ)
    → count ≤ index
    → entry (record { bytes = bytes; entry_width = width; entry_count = count }) index ≡ none
unfolding entry
root_beyond bytes width count index le = ground arith

root_fills :
    (kind : RootKind) (size : ℕ)
    → sdt_header_size ≤ size
    → ((size - sdt_header_size) % root_width kind == 0) ≡ true
    → sdt_header_size + (size - sdt_header_size) / root_width kind * root_width kind ≡ size
unfolding root_width
root_fills rsdt size le h = ground arith
root_fills xsdt size le h = ground arith

-- A root table that is accepted has its signature and is filled by its entries: `entry` gives the
-- little-endian address at its place of the table for each index below the count, and nothing
-- beyond.
pub parse_root-IsRoot :
    (bytes : List ℕ) (kind : RootKind) (t : RootTable)
    → parse_root bytes kind ≡ ok t
    → IsRoot bytes kind t
unfolding parse_root prefix
parse_root-IsRoot bytes kind t h =
    let (header, e, a) = ok_of_bind (parse_sdt bytes) _ h in
    elim (Headed-cases (parse_sdt-Headed bytes)) [
      | inr (x, f) ↦ absurd (cc)
      | inl (other, f, table) ↦
          let same : other ≡ header = ok-injective (sym f ∙ e) in
          let is : IsTable bytes header = subst (IsTable bytes) same table in
          let b = ok_of_ensure (bytes_eq header.signature (root_signature kind)) _ _ a in
          let c = ok_of_ensure ((header.length - sdt_header_size) % root_width kind == 0) _ _ b.1 in
          let inside : leb header.length (length bytes) ≡ true = ground (arith, is.inside) in
          let count = (header.length - sdt_header_size) / root_width kind in
          let made : ◌≡◌ {A = Result Fault RootTable}
              (ok (record {
                bytes = take header.length bytes;
                entry_width = root_width kind;
                entry_count = count;
              }))
              (ok t) =
            ground (arith, c.1) in
          let fills = root_fills kind header.length is.long c.0 in
          subst (IsRoot bytes kind) (ok-injective made) (record {
            header = header;
            accepted = e;
            signature = sym is.signature ∙ bytes_eq→eq header.signature (root_signature kind) b.0;
            fills = fills;
            within = λ index lt. root_entry bytes kind header.length count index is.inside fills lt;
            beyond =
                λ index le. root_beyond (take header.length bytes) (root_width kind) count index le;
          })
    ]
