-- ===== src/Acpi/Adding.antt =====
-- crates/acpi/src/lib.rs: what one entry of a MADT does to the `MadtInfo` under construction.
use slopos.Base.{
  ℕ, suc, ◌+◌, ◌≤◌, ◌<◌, ◌≡◌, ◌≢◌, ◌==◌, refl, ◌∙◌, ap, inl, inr, true, ◌&&◌, List, [], ◌∷◌, ◌++◌,
  length, length-set, take, take-set, set, Result, ok, err, ◌>>=◌, Bool-cases, arith, ltb, leb,
}
use slopos.Acpi.{
  ParseError, Fault, refused, truncated, too_many_io_apics, too_many_interrupt_overrides,
  read_number,
}
use slopos.Acpi.Madt.{
  MadtInfo, max_io_apics, max_interrupt_overrides, store_at, count_processor, add_io_apic,
  add_override, add_entry, io_apic_list, interrupt_overrides,
}
use slopos.Acpi.Entries.{
  Topology, topology, number, processor, io_apic_of, override_of, with_entry, entry_at,
  length-entry_at, read_number-number, byte_at-number,
}

-- The arrays of a MADT under construction
pub record Kept (info : MadtInfo) : Type 0 where
  pub io_apics : length info.io_apics ≡ max_io_apics
  pub io_apic_count : info.io_apic_count ≤ max_io_apics
  pub overrides : length info.overrides ≡ max_interrupt_overrides
  pub override_count : info.override_count ≤ max_interrupt_overrides

-- A step that makes the topology to another, or refuses the table for more than a truncation
pub data Makes (after : Topology) : Result Fault MadtInfo → Type 0 where
  makes : (next : MadtInfo) → Kept next → topology next ≡ after → Makes after (ok next)
  refuses : (x : ParseError) → x ≢ truncated → Makes after (err (refused x))

-- A write behind the count, and a count that takes it in
extends {ℓ} :
    {A : Type ℓ} (xs : List A) (i : ℕ) (v : A)
    → i < length xs
    → take (i + 1) (set xs i v) ≡ take i xs ++ v ∷ []
extends xs i v h = let e : i + 1 ≡ suc i = omega arith in rw e (take-set xs i v h)

module _ (bytes : List ℕ) (offset size : ℕ) (inside : offset + size ≤ length bytes)
    (info : MadtInfo) (kept : Kept info) where
  count_processor-Makes :
      (at : ℕ)
      → at + 4 ≤ size
      → Makes
          (processor (number (entry_at bytes offset size) 4 at) (topology info))
          (read_number 4 bytes (offset + at) >>= λ flags. ok (count_processor info flags))
  unfolding processor count_processor topology
  count_processor-Makes at le =
      rw (read_number-number bytes offset size 4 at (offset + at) inside le refl) (
        makes _
          (record {
            io_apics = kept.io_apics;
            io_apic_count = kept.io_apic_count;
            overrides = kept.overrides;
            override_count = kept.override_count;
          })
          refl)

  add_io_apic-Makes :
      12 ≤ size
      → Makes
          (record (topology info) {
            io_apics = (topology info).io_apics ++ io_apic_of (entry_at bytes offset size) ∷ [];
          })
          (add_io_apic bytes offset info)
  unfolding add_io_apic topology io_apic_of io_apic_list store_at
  add_io_apic-Makes le = elim (Bool-cases (info.io_apic_count == max_io_apics)) [
    | inl f ↦ rw f (refuses too_many_io_apics (λ h. cc))
    | inr f ↦
        let free : ltb info.io_apic_count (length info.io_apics) ≡ true =
          ground (arith, kept.io_apics, kept.io_apic_count) in
        rw
          (
            f,
            byte_at-number bytes offset size 2 (offset + 2) inside (omega arith) refl,
            read_number-number bytes offset size 4 4 (offset + 4) inside (omega arith) refl,
            read_number-number bytes offset size 4 8 (offset + 8) inside (omega arith) refl,
            free,
          )
          (makes _
            (record {
              io_apics = length-set info.io_apics info.io_apic_count _ ∙ kept.io_apics;
              io_apic_count = ground (arith, kept.io_apics);
              overrides = kept.overrides;
              override_count = kept.override_count;
            })
            (ap (λ list. record (topology info) { io_apics = list })
              (extends info.io_apics info.io_apic_count _ (ground (arith, kept.io_apics)))))
  ]

  add_override-Makes :
      10 ≤ size
      → Makes
          (record (topology info) {
            overrides = (topology info).overrides ++ override_of (entry_at bytes offset size) ∷ [];
          })
          (add_override bytes offset info)
  unfolding add_override topology override_of interrupt_overrides store_at
  add_override-Makes le = elim (Bool-cases (info.override_count == max_interrupt_overrides)) [
    | inl f ↦ rw f (refuses too_many_interrupt_overrides (λ h. cc))
    | inr f ↦
        let free : ltb info.override_count (length info.overrides) ≡ true =
          ground (arith, kept.overrides, kept.override_count) in
        rw
          (
            f,
            byte_at-number bytes offset size 2 (offset + 2) inside (omega arith) refl,
            byte_at-number bytes offset size 3 (offset + 3) inside (omega arith) refl,
            read_number-number bytes offset size 4 4 (offset + 4) inside (omega arith) refl,
            read_number-number bytes offset size 2 8 (offset + 8) inside (omega arith) refl,
            free,
          )
          (makes _
            (record {
              io_apics = kept.io_apics;
              io_apic_count = kept.io_apic_count;
              overrides = length-set info.overrides info.override_count _ ∙ kept.overrides;
              override_count = ground (arith, kept.overrides);
            })
            (ap (λ list. record (topology info) { overrides = list })
              (extends info.overrides info.override_count _ (ground (arith, kept.overrides)))))
  ]

  set_address-Makes :
      12 ≤ size
      → Makes
          (record (topology info) { local_apic_address = number (entry_at bytes offset size) 8 4 })
          (read_number 8 bytes (offset + 4) >>= λ address.
            ok (record info { local_apic_address = address }))
  unfolding topology
  set_address-Makes le = rw (read_number-number bytes offset size 8 4 (offset + 4) inside le refl) (
      makes _
        (record {
          io_apics = kept.io_apics;
          io_apic_count = kept.io_apic_count;
          overrides = kept.overrides;
          override_count = kept.override_count;
        })
        refl)

  pub add_entry-Makes :
      Makes
        (with_entry (entry_at bytes offset size) (topology info))
        (add_entry bytes offset (number (entry_at bytes offset size) 1 0) size info)
  unfolding add_entry with_entry
  add_entry-Makes =
      let kind = number (entry_at bytes offset size) 1 0 in
      rw (length-entry_at bytes offset size inside) (elim (Bool-cases ((kind == 0) && leb 8 size)) [
        | inl f ↦ rw f (count_processor-Makes 4 (ground arith))
        | inr f ↦ rw f (elim (Bool-cases ((kind == 1) && leb 12 size)) [
          | inl g ↦ rw g (add_io_apic-Makes (ground arith))
          | inr g ↦ rw g (elim (Bool-cases ((kind == 2) && leb 10 size)) [
            | inl h ↦ rw h (add_override-Makes (ground arith))
            | inr h ↦ rw h (elim (Bool-cases ((kind == 5) && leb 12 size)) [
              | inl i ↦ rw i (set_address-Makes (ground arith))
              | inr i ↦ rw i (elim (Bool-cases ((kind == 9) && leb 16 size)) [
                | inl j ↦ rw j (count_processor-Makes 8 (ground arith))
                | inr j ↦ rw j (makes info kept refl)
              ])
            ])
          ])
        ])
      ])
