-- ===== src/Acpi/Reading.antt =====
-- crates/acpi/src/lib.rs: the loop over the entries of a MADT.
use slopos.Acpi.{
  ParseError, Fault, refused, panicked, truncated, invalid_signature, invalid_length,
  invalid_madt_entry, parse_sdt, SdtHeader, ensure,
}
use slopos.Acpi.Madt.{
  MadtInfo, add_entries, parse_madt, madt_signature, io_apic_list, max_io_apics,
  max_interrupt_overrides, empty_io_apic, empty_override, interrupt_overrides,
}
use slopos.Base.{
  ℕ, zero, suc, ◌+◌, ◌≤◌, ◌≡◌, ◌≢◌, ◌==◌, refl, sym, ◌∙◌, ap, inl, inr, false, not, ◌&&◌, List, [],
  ◌∷◌, ◌++◌, length, length-take, length-replicate, take, drop, drop-drop, drop_all, slice-take,
  All, Result, ok, err, ◌>>=◌, ◌>>◌, Bool-cases, arith, ltb, leb, ok-injective, bytes_eq, ◌%◌,
  bytes_eq→eq, subst,
}
use slopos.Acpi.Entries.{
  Topology, topology, number, with_entry, with_entries, concat, IsEntry, entry_at, length-entry_at,
  byte_at-number,
}
use slopos.Acpi.Adding.{Kept, Makes, makes, refuses, add_entry-Makes}
use slopos.Acpi.Tables.{Headed-cases, parse_sdt-Headed, read_number_total}

-- A part of a table that is cut into entries, which make one topology to another
pub record Entered (bytes : List ℕ) (offset size : ℕ) (before after : Topology) : Type 0 where
  pub entries : List (List ℕ)
  pub each : All IsEntry entries
  pub cover : concat entries ≡ drop offset (take size bytes)
  pub adds_up : after ≡ with_entries entries before

data Walks (bytes : List ℕ) (offset size : ℕ) (before : Topology)
    : Result Fault MadtInfo → Type 0 where
  walks :
      (info : MadtInfo)
      → Kept info
      → Entered bytes offset size before (topology info)
      → Walks bytes offset size before (ok info)
  stops : (x : ParseError) → x ≢ truncated → Walks bytes offset size before (err (refused x))

take-append_drop : (n : ℕ) (xs : List ℕ) → take n xs ++ drop n xs ≡ xs
take-append_drop zero xs = refl
take-append_drop (suc n) [] = refl
take-append_drop (suc n) (x ∷ xs) = ap (◌∷◌ x) (take-append_drop n xs)

-- The loop is at its end.
Entered-end :
    (bytes : List ℕ) (offset size : ℕ) (t : Topology)
    → size ≤ offset
    → Entered bytes offset size t t
unfolding concat with_entries
Entered-end bytes offset size t h = record {
  entries = [];
  each = tt;
  cover = sym (drop_all offset (take size bytes) (omega (arith, length-take size bytes)));
  adds_up = refl;
}

-- One entry in front
Entered-cons :
    (bytes : List ℕ) (offset size count : ℕ) (before after : Topology)
    → size ≤ length bytes
    → 2 ≤ count
    → offset + count ≤ size
    → number (entry_at bytes offset count) 1 1 ≡ count
    → Entered bytes (offset + count) size (with_entry (entry_at bytes offset count) before) after
    → Entered bytes offset size before after
unfolding concat with_entries
Entered-cons bytes offset size count before after le long inside honest rest =
    let e = entry_at bytes offset count in
    let l = length-entry_at bytes offset count (omega arith) in
    let cut : take count (drop offset (take size bytes)) ≡ e =
      slice-take size offset count bytes inside in
    record {
      entries = e ∷ rest.entries;
      each = (record { long = omega (arith, l); honest = honest ∙ sym l }, rest.each);
      cover =
          rw (rest.cover, sym (drop-drop offset count (take size bytes)), sym cut)
            (take-append_drop count (drop offset (take size bytes)));
      adds_up = rest.adds_up;
    }

Walks-cons :
    {bytes : List ℕ} {offset size count : ℕ} {before : Topology} {r : Result Fault MadtInfo}
    → size ≤ length bytes
    → 2 ≤ count
    → offset + count ≤ size
    → number (entry_at bytes offset count) 1 1 ≡ count
    → Walks bytes (offset + count) size (with_entry (entry_at bytes offset count) before) r
    → Walks bytes offset size before r
Walks-cons le long inside honest (stops x h) = stops x h
Walks-cons {bytes = bytes} {offset = offset} {size = size} {count = count} {before = before} le long
      inside honest (walks info kept entered) =
    walks info kept
      (Entered-cons bytes offset size count before (topology info) le long inside honest entered)

Makes-bind :
    {bytes : List ℕ} {offset size : ℕ} {after : Topology} {r : Result Fault MadtInfo}
    (rest : MadtInfo → Result Fault MadtInfo)
    → Makes after r
    → ((next : MadtInfo) → Kept next → Walks bytes offset size (topology next) (rest next))
    → Walks bytes offset size after (r >>= rest)
Makes-bind rest (refuses x h) go = stops x h
Makes-bind {bytes = bytes} {offset = offset} {size = size} rest (makes next kept e) go =
    subst (λ t. Walks bytes offset size t (rest next)) e (go next kept)

add_entries-Walks :
    (bytes : List ℕ) (size turns offset : ℕ) (info : MadtInfo)
    → size ≤ length bytes
    → size ≤ offset + turns
    → Kept info
    → Walks bytes offset size (topology info) (add_entries bytes size turns offset info)
unfolding add_entries
add_entries-Walks bytes size zero offset info le enough kept =
    let done : ltb offset size ≡ false = ground arith in
    rw done (walks info kept (Entered-end bytes offset size (topology info) (ground arith)))
add_entries-Walks bytes size (suc turns) offset info le enough kept =
    elim (Bool-cases (ltb offset size)) [
      | inr f ↦
          rw (add_entries, f)
            (walks info kept (Entered-end bytes offset size (topology info) (ground arith)))
      | inl f ↦
          rw (add_entries, f)
            (elim (Bool-cases (leb (offset + 2) size)) [
              | inr g ↦ rw g (stops invalid_madt_entry (λ h. cc))
              | inl g ↦
                  let front : offset + 2 ≤ length bytes = ground arith in
                  let count = number (entry_at bytes offset 2) 1 1 in
                  let kind =
                    byte_at-number bytes offset 2 0 offset front (omega arith) (omega arith) in
                  let said =
                    byte_at-number bytes offset 2 1 (offset + 1) front (omega arith) refl in
                  rw (g, kind, said)
                    (elim (Bool-cases (leb 2 count && leb (offset + count) size)) [
                      | inr h ↦ rw h (stops invalid_madt_entry (λ z. cc))
                      | inl h ↦
                          let long : 2 ≤ count = ground arith in
                          let inside : offset + count ≤ size = ground arith in
                          let whole =
                            byte_at-number bytes offset count 0 offset (omega arith) (omega arith)
                              (omega arith) in
                          let type : number (entry_at bytes offset 2) 1 0
                              ≡ number (entry_at bytes offset count) 1 0 =
                            ok-injective (sym kind ∙ whole) in
                          let honest : number (entry_at bytes offset count) 1 1 ≡ count =
                            ok-injective (
                              sym (
                                byte_at-number bytes offset count 1 (offset + 1) (omega arith)
                                  (omega arith) refl)
                              ∙ said) in
                          rw (h, type)
                            (Walks-cons le long inside honest (
                              Makes-bind _
                                (add_entry-Makes bytes offset count (omega arith) info kept)
                                (λ next fine.
                                  add_entries-Walks bytes size turns (offset + count) next le
                                    (omega arith) fine)))
                    ])
            ])
    ]

-- What a MADT that was read holds: the bytes behind its two fields are cut into entries, and these
-- add up to all that is known of the processors and the interrupt controllers.
pub record IsMadt (bytes : List ℕ) (info : MadtInfo) : Type 0 where
  pub header : SdtHeader
  pub accepted : parse_sdt bytes ≡ ok header
  pub signature : take 4 bytes ≡ madt_signature
  pub entered :
      Entered bytes 44 header.length
        (record {
          local_apic_address = number bytes 4 36;
          pcat_compatible = not (number bytes 4 40 % 2 == 0);
          enabled_processors = 0;
          io_apics = [];
          overrides = [];
        })
        (topology info)
  pub address : info.local_apic_address ≢ 0
  pub io_apics : io_apic_list info ≢ []

data Parsed (bytes : List ℕ) : Result Fault MadtInfo → Type 0 where
  parsed : (info : MadtInfo) → IsMadt bytes info → Parsed bytes (ok info)
  unparsed :
      (x : ParseError)
      → (x ≡ truncated → parse_sdt bytes ≡ err (refused truncated))
      → Parsed bytes (err (refused x))

io_apic_list-nonempty :
    (info : MadtInfo) → Kept info → info.io_apic_count ≢ 0 → io_apic_list info ≢ []
unfolding io_apic_list
io_apic_list-nonempty info kept h e = h (
    omega (
      arith,
      ap length e,
      length-take info.io_apic_count info.io_apics,
      kept.io_apics,
      kept.io_apic_count,
    ))

-- The checks at the end
Walks-Parsed :
    (bytes : List ℕ) (header : SdtHeader) (before : Topology) {r : Result Fault MadtInfo}
    → parse_sdt bytes ≡ ok header
    → take 4 bytes ≡ madt_signature
    → before ≡ record {
      local_apic_address = number bytes 4 36;
      pcat_compatible = not (number bytes 4 40 % 2 == 0);
      enabled_processors = 0;
      io_apics = [];
      overrides = [];
    }
    → Walks bytes 44 header.length before r
    → Parsed bytes (
        r >>= λ info.
        ensure
          (not (info.local_apic_address == 0) && not (info.io_apic_count == 0))
          (refused invalid_madt_entry)
        >> ok info)
Walks-Parsed bytes header before accepted signature first (stops x h) =
    unparsed x (λ e. absurd (h e))
Walks-Parsed bytes header before accepted signature first (walks info kept entered) =
    elim (Bool-cases (not (info.local_apic_address == 0) && not (info.io_apic_count == 0))) [
      | inr f ↦ rw f (unparsed invalid_madt_entry (λ e. absurd (cc)))
      | inl f ↦ rw f (
          parsed info (record {
            header = header;
            accepted = accepted;
            signature = signature;
            entered = subst (λ t. Entered bytes 44 header.length t (topology info)) first entered;
            address = λ e. ground arith;
            io_apics = io_apic_list-nonempty info kept (λ e. ground arith);
          }))
    ]

parse_madt-Parsed : (bytes : List ℕ) → Parsed bytes (parse_madt bytes)
unfolding parse_madt topology number io_apic_list interrupt_overrides
parse_madt-Parsed bytes = elim (Headed-cases (parse_sdt-Headed bytes)) [
  | inr (x, f) ↦ rw (parse_madt, f) (unparsed x (λ e. f ∙ ap (λ y. err (refused y)) e))
  | inl (header, f, is) ↦
      rw (parse_madt, f)
        (elim (Bool-cases (bytes_eq header.signature madt_signature)) [
          | inr g ↦ rw g (unparsed invalid_signature (λ e. absurd (cc)))
          | inl g ↦ rw g (elim (Bool-cases (leb 44 header.length)) [
            | inr h ↦ rw h (unparsed invalid_length (λ e. absurd (cc)))
            | inl h ↦
                let long : 44 ≤ header.length = ground arith in
                rw
                  (
                    h,
                    read_number_total 4 bytes 36 (omega (arith, is.inside)),
                    read_number_total 4 bytes 40 (omega (arith, is.inside)),
                  )
                  (Walks-Parsed bytes header _ f
                    (sym is.signature ∙ bytes_eq→eq header.signature madt_signature g) refl
                    (add_entries-Walks bytes header.length header.length 44 _ is.inside
                      (omega arith)
                      (record {
                        io_apics = length-replicate max_io_apics empty_io_apic;
                        io_apic_count = omega arith;
                        overrides = length-replicate max_interrupt_overrides empty_override;
                        override_count = omega arith;
                      })))
          ])
        ])
]

Parsed-IsMadt :
    {bytes : List ℕ} {r : Result Fault MadtInfo} {info : MadtInfo}
    → Parsed bytes r
    → r ≡ ok info
    → IsMadt bytes info
Parsed-IsMadt {bytes = bytes} (parsed other m) e = subst (IsMadt bytes) (ok-injective e) m
Parsed-IsMadt (unparsed x h) e = absurd (cc)

-- What `MadtInfo::parse` returns of a table is what its entries add up to, one after the other and
-- each read on its own: the bytes behind the two fields are cut into entries that say their
-- lengths, the processors are counted, the controllers and overrides come in order, the last
-- address override counts; and there is an address and a controller.
pub parse_madt-IsMadt :
    (bytes : List ℕ) (info : MadtInfo) → parse_madt bytes ≡ ok info → IsMadt bytes info
parse_madt-IsMadt bytes info h = Parsed-IsMadt (parse_madt-Parsed bytes) h

Parsed-faults :
    {bytes : List ℕ} {r : Result Fault MadtInfo}
    → Parsed bytes r
    → (r ≢ err panicked) × (r ≡ err (refused truncated) → parse_sdt bytes ≡ err (refused truncated))
Parsed-faults (parsed info m) = (λ e. cc, λ e. absurd (cc))
Parsed-faults (unparsed x h) = (λ e. cc, λ e. h (cc))

-- On any bytes, `MadtInfo::parse` never indexes out of bounds and its loop comes to an end; it
-- reports a truncated table only where the common header is refused as truncated.
pub parse_madt_faults :
    (bytes : List ℕ)
    → (parse_madt bytes ≢ err panicked)
      × (parse_madt bytes ≡ err (refused truncated) → parse_sdt bytes ≡ err (refused truncated))
parse_madt_faults bytes = Parsed-faults (parse_madt-Parsed bytes)
