-- ===== src/Acpi/Madt.antt =====
-- crates/acpi/src/lib.rs: `MadtInfo`, the interrupt controllers and processors that the MADT lists.
use slopos.Base.{
  ℕ, zero, suc, ◌+◌, ◌%◌, ◌==◌, Bool, true, false, not, ◌&&◌, List, [], ◌∷◌, length, take, set,
  replicate, some, none, Result, ok, err, ◌>>=◌, ◌>>◌, ensure, leb, ltb, if◌then◌else◌, bytes_eq,
  find,
}
use slopos.Acpi.{
  Fault, refused, panicked, invalid_signature, invalid_length, invalid_madt_entry,
  too_many_io_apics, too_many_interrupt_overrides, byte_at, read_number, parse_sdt,
}

abbrev pub max_io_apics : ℕ
max_io_apics = 8

abbrev pub max_interrupt_overrides : ℕ
max_interrupt_overrides = 16

pub record IoApic : Type 0 where
  pub id : ℕ
  pub address : ℕ
  pub global_interrupt_base : ℕ

abbrev pub empty_io_apic : IoApic
empty_io_apic = record { id = 0; address = 0; global_interrupt_base = 0 }

pub record InterruptOverride : Type 0 where
  pub bus : ℕ
  pub source : ℕ
  pub global_interrupt : ℕ
  pub flags : ℕ

abbrev pub empty_override : InterruptOverride
empty_override = record { bus = 0; source = 0; global_interrupt = 0; flags = 0 }

pub record MadtInfo : Type 0 where
  pub local_apic_address : ℕ
  pub pcat_compatible : Bool
  pub enabled_processors : ℕ
  pub io_apics : List IoApic
  pub io_apic_count : ℕ
  pub overrides : List InterruptOverride
  pub override_count : ℕ

-- `array[index] = value`
unfoldable pub store_at {ℓ} : {A : Type ℓ} → List A → ℕ → A → Result Fault (List A)
store_at array index value =
    if ltb index (length array) then ok (set array index value) else err panicked

-- `flags & 3 != 0` adds a processor.
unfoldable pub count_processor : MadtInfo → ℕ → MadtInfo
count_processor info flags = record info {
  enabled_processors =
      if flags % 4 == 0 then info.enabled_processors else info.enabled_processors + 1;
}

unfoldable pub add_io_apic : List ℕ → ℕ → MadtInfo → Result Fault MadtInfo
unfolding byte_at read_number store_at
add_io_apic bytes offset info = do
  ensure (not (info.io_apic_count == max_io_apics)) (refused too_many_io_apics)
  id ← byte_at bytes (offset + 2)
  address ← read_number 4 bytes (offset + 4)
  base ← read_number 4 bytes (offset + 8)
  io_apics ←
      store_at info.io_apics info.io_apic_count
        (record { id = id; address = address; global_interrupt_base = base })
  ok (record info { io_apics = io_apics; io_apic_count = info.io_apic_count + 1 })

unfoldable pub add_override : List ℕ → ℕ → MadtInfo → Result Fault MadtInfo
unfolding byte_at read_number store_at
add_override bytes offset info = do
  ensure (not (info.override_count == max_interrupt_overrides))
      (refused too_many_interrupt_overrides)
  bus ← byte_at bytes (offset + 2)
  source ← byte_at bytes (offset + 3)
  interrupt ← read_number 4 bytes (offset + 4)
  flags ← read_number 2 bytes (offset + 8)
  overrides ←
      store_at info.overrides info.override_count
        (record { bus = bus; source = source; global_interrupt = interrupt; flags = flags })
  ok (record info { overrides = overrides; override_count = info.override_count + 1 })

-- The `match` on the type of the entry at an offset, with its length
unfoldable pub add_entry : List ℕ → ℕ → ℕ → ℕ → MadtInfo → Result Fault MadtInfo
unfolding read_number count_processor add_io_apic add_override
add_entry bytes offset entry_type entry_length info =
    if (entry_type == 0) && leb 8 entry_length
    then (read_number 4 bytes (offset + 4) >>= λ flags. ok (count_processor info flags))
    else if (entry_type == 1) && leb 12 entry_length
    then add_io_apic bytes offset info
    else if (entry_type == 2) && leb 10 entry_length
    then add_override bytes offset info
    else if (entry_type == 5) && leb 12 entry_length
    then (read_number 8 bytes (offset + 4) >>= λ address.
        ok (record info { local_apic_address = address }))
    else if (entry_type == 9) && leb 16 entry_length
    then (read_number 4 bytes (offset + 8) >>= λ flags. ok (count_processor info flags))
    else ok info

-- The loop `while offset < header.length`, with the number of turns that may still be taken; to run
-- out of them counts as a panic.
unfoldable pub add_entries : List ℕ → ℕ → ℕ → ℕ → MadtInfo → Result Fault MadtInfo
unfolding byte_at add_entry
add_entries bytes size zero offset info = if ltb offset size then err panicked else ok info
add_entries bytes size (suc turns) offset info = elim (ltb offset size) [
  | false ↦ ok info
  | true ↦ do
    ensure (leb (offset + 2) size) (refused invalid_madt_entry)
    entry_type ← byte_at bytes offset
    entry_length ← byte_at bytes (offset + 1)
    ensure (leb 2 entry_length && leb (offset + entry_length) size) (refused invalid_madt_entry)
    next ← add_entry bytes offset entry_type entry_length info
    add_entries bytes size turns (offset + entry_length) next
]

-- b"APIC"
abbrev pub madt_signature : List ℕ
madt_signature = 65 ∷ 80 ∷ 73 ∷ 67 ∷ []

-- MadtInfo::parse
unfoldable pub parse_madt : List ℕ → Result Fault MadtInfo
unfolding parse_sdt read_number add_entries
parse_madt bytes = do
  header ← parse_sdt bytes
  ensure (bytes_eq header.signature madt_signature) (refused invalid_signature)
  ensure (leb 44 header.length) (refused invalid_length)
  address ← read_number 4 bytes 36
  flags ← read_number 4 bytes 40
  info ← add_entries bytes header.length header.length 44 (record {
    local_apic_address = address;
    pcat_compatible = not (flags % 2 == 0);
    enabled_processors = 0;
    io_apics = replicate max_io_apics empty_io_apic;
    io_apic_count = 0;
    overrides = replicate max_interrupt_overrides empty_override;
    override_count = 0;
  })
  ensure (not (info.local_apic_address == 0) && not (info.io_apic_count == 0))
      (refused invalid_madt_entry)
  ok info

unfoldable pub io_apic_list : MadtInfo → List IoApic
io_apic_list info = take info.io_apic_count info.io_apics

unfoldable pub interrupt_overrides : MadtInfo → List InterruptOverride
interrupt_overrides info = take info.override_count info.overrides

-- The interrupt and the flags that an ISA line is wired to
unfoldable pub isa_route : MadtInfo → ℕ → ℕ × ℕ
unfolding interrupt_overrides find
isa_route info irq =
    elim (find (λ o. (o.bus == 0) && (o.source == irq)) (interrupt_overrides info)) [
      | none ↦ (irq, 0)
      | some o ↦ (o.1.global_interrupt, o.1.flags)
    ]
