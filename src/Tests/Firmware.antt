-- ===== src/Tests/Firmware.antt =====
-- crates/acpi/src/lib.rs: the tables of the unit tests, and the theorems on them.
use slopos.Base.{true, set, replicate, ℕ, List, [], ◌∷◌, ◌++◌, ◌≡◌, ◌≢◌, refl, ok, err, some}
use slopos.Acpi.{
  xsdt, parse_rsdp, RootTable, parse_root, entry, refused, panicked, truncated, parse_sdt,
  invalid_checksum,
}
use slopos.Acpi.Madt.{
  MadtInfo, parse_madt, isa_route, max_io_apics, max_interrupt_overrides, empty_io_apic,
  empty_override,
}
use slopos.Acpi.Reading.{IsMadt, parse_madt-IsMadt, parse_madt_faults}
use slopos.Acpi.Tables.{IsRoot, parse_root-IsRoot}

-- The rest of a header behind the checksum
abbrev header_rest : List ℕ
header_rest =
    0 ∷ 0 ∷ 0 ∷ 0 ∷ 0 ∷ 0 ∷ 0 ∷ 0 ∷ 0 ∷ 0 ∷ 0 ∷ 0 ∷ 0 ∷ 0 ∷ 0 ∷ 0 ∷ 0 ∷ 0 ∷ 0 ∷ 0 ∷ 0 ∷ 0 ∷ 0 ∷ 0
    ∷ 0 ∷ 0 ∷ []

abbrev root_bytes : List ℕ
root_bytes =
    (88 ∷ 83 ∷ 68 ∷ 84 ∷ 52 ∷ 0 ∷ 0 ∷ 0 ∷ 1 ∷ 88 ∷ [])
    ++ header_rest
    ++ (0 ∷ 16 ∷ 0 ∷ 0 ∷ 0 ∷ 0 ∷ 0 ∷ 0 ∷ 0 ∷ 32 ∷ 0 ∷ 0 ∷ 0 ∷ 0 ∷ 0 ∷ 0 ∷ [])

abbrev root_table : RootTable
root_table = record { bytes = root_bytes; entry_width = 8; entry_count = 2 }

reads_root : parse_root root_bytes xsdt ≡ ok root_table
unfolding parse_root
reads_root = refl

finds_second_entry : entry root_table 1 ≡ some 0x2000
unfolding entry
finds_second_entry = refl

parse_root-IsRoot_example : IsRoot root_bytes xsdt root_table
parse_root-IsRoot_example = parse_root-IsRoot root_bytes xsdt root_table reads_root

abbrev madt_bytes : ℕ → List ℕ
madt_bytes sum =
    (65 ∷ 80 ∷ 73 ∷ 67 ∷ 74 ∷ 0 ∷ 0 ∷ 0 ∷ 1 ∷ sum ∷ [])
    ++ header_rest
    ++ (0 ∷ 0 ∷ 0xe0 ∷ 0xfe ∷ 1 ∷ 0 ∷ 0 ∷ 0 ∷ [])
    ++ (0 ∷ 8 ∷ 0 ∷ 2 ∷ 1 ∷ 0 ∷ 0 ∷ 0 ∷ [])
    ++ (1 ∷ 12 ∷ 3 ∷ 0 ∷ 0 ∷ 0 ∷ 0xc0 ∷ 0xfe ∷ 0 ∷ 0 ∷ 0 ∷ 0 ∷ [])
    ++ (2 ∷ 10 ∷ 0 ∷ 0 ∷ 2 ∷ 0 ∷ 0 ∷ 0 ∷ 15 ∷ 0 ∷ [])

sums_up : parse_madt (madt_bytes 0) ≡ err (refused invalid_checksum)
unfolding parse_madt
sums_up = refl

abbrev topology_info : MadtInfo
topology_info = record {
  local_apic_address = 0xfee0_0000;
  pcat_compatible = true;
  enabled_processors = 1;
  io_apics =
      set (replicate max_io_apics empty_io_apic) 0
        (record { id = 3; address = 0xfec0_0000; global_interrupt_base = 0 });
  io_apic_count = 1;
  overrides =
      set (replicate max_interrupt_overrides empty_override) 0
        (record { bus = 0; source = 0; global_interrupt = 2; flags = 15 });
  override_count = 1;
}

reads_madt : parse_madt (madt_bytes 195) ≡ ok topology_info
unfolding parse_madt
reads_madt = refl

routes_line_0 : isa_route topology_info 0 ≡ (2, 15)
unfolding isa_route
routes_line_0 = refl

routes_line_1 : isa_route topology_info 1 ≡ (1, 0)
unfolding isa_route
routes_line_1 = refl

parse_madt-IsMadt_example : IsMadt (madt_bytes 195) topology_info
parse_madt-IsMadt_example = parse_madt-IsMadt (madt_bytes 195) topology_info reads_madt

parse_madt_faults_example :
    (parse_madt [] ≢ err panicked)
    × (parse_madt [] ≡ err (refused truncated) → parse_sdt [] ≡ err (refused truncated))
parse_madt_faults_example = parse_madt_faults []

reads_rsdp :
    parse_rsdp (
      (82 ∷ 83 ∷ 68 ∷ 32 ∷ 80 ∷ 84 ∷ 82 ∷ 32 ∷ 223 ∷ 0 ∷ 0 ∷ 0 ∷ 0 ∷ 0 ∷ 0 ∷ 2 ∷ [])
      ++ (0 ∷ 0 ∷ 0 ∷ 0 ∷ 36 ∷ 0 ∷ 0 ∷ 0 ∷ 240 ∷ 222 ∷ 188 ∷ 154 ∷ 120 ∷ 86 ∷ 52 ∷ 18 ∷ [])
      ++ (164 ∷ 0 ∷ 0 ∷ 0 ∷ []))
    ≡ ok (record { root_kind = xsdt; root_address = 0x1234_5678_9abc_def0 })
unfolding parse_rsdp
reads_rsdp = refl
