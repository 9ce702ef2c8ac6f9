-- ===== src/Tests/Devices.antt =====
-- crates/pci/src/lib.rs: the virtio block device of the unit tests, alone on its bus.
use slopos.Base.{
  ℕ, List, [], ◌∷◌, ◌≡◌, ◌==◌, ◌&&◌, refl, true, false, some, none, set, replicate, if◌then◌else◌,
}
use slopos.Pci.{
  ConfigAccess, Bdf, Device, empty_capability, read_device, virtio_region, is_virtio_block,
}
use slopos.Pci.Inventory.{scan, push, find_virtio_block, empty_inventory, empty_device}
use slopos.Pci.Finding.{InventoryOf, scan-InventoryOf}
use slopos.Pci.Walking.{all_present, Answers}
use slopos.Pci.Capabilities.{IsRegion, read_device-virtio_region}

abbrev words : List (ℕ × ℕ)
words =
    (0x00, 0x1042_1af4)
    ∷ (0x04, 0x0010_0000)
    ∷ (0x08, 0x0100_0001)
    ∷ (0x0c, 0)
    ∷ (0x10, 1)
    ∷ (0x14, 0)
    ∷ (0x18, 0)
    ∷ (0x1c, 0)
    ∷ (0x20, 0x8000_0004)
    ∷ (0x24, 0)
    ∷ (0x2c, 0x0002_1af4)
    ∷ (0x34, 0x40)
    ∷ (0x40, 0x0110_5009)
    ∷ (0x44, 4)
    ∷ (0x48, 0)
    ∷ (0x4c, 56)
    ∷ (0x50, 0x0410_4009)
    ∷ (0x54, 4)
    ∷ (0x58, 0x2000)
    ∷ (0x5c, 8)
    ∷ (0x3c, 0x0001_000b)
    ∷ []

word_at : ℕ → List (ℕ × ℕ) → ℕ
word_at offset [] = 0xffff_ffff
word_at offset (w ∷ ws) = if w.0 == offset then w.1 else word_at offset ws

-- Only function 0 of device 1 on bus 0 answers. Its capability list leads back to its start.
abbrev one_block : ConfigAccess (Unit {0})
unfolding word_at
one_block = record {
  read_u32 = λ s bus device function offset. (
    if (bus == 0) && ((device == 1) && (function == 0)) then word_at offset words else 0xffff_ffff,
    s,
  );
}

abbrev block_address : Bdf
block_address = record { bus = 0; device = 1; function = 0 }

abbrev block : Device
block = record {
  address = block_address;
  vendor_id = 0x1af4;
  device_id = 0x1042;
  command = 0;
  status = 16;
  revision = 1;
  programming_interface = 0;
  subclass = 0;
  class = 1;
  header_type = 0;
  subsystem_vendor_id = 0x1af4;
  subsystem_id = 2;
  interrupt_line = 11;
  interrupt_pin = 0;
  bars = 1 ∷ 0 ∷ 0 ∷ 0 ∷ 0x8000_0004 ∷ 0 ∷ [];
  virtio_capability_mask = set (set (replicate 32 false) 1 true) 4 true;
  virtio_capabilities =
      set
        (set (replicate 6 empty_capability) 1
          (record { valid = true; bar = 4; offset = 0; length = 56; notify_multiplier = 0 }))
        4 (record { valid = true; bar = 4; offset = 0x2000; length = 8; notify_multiplier = 0 });
}

reads_block : (read_device one_block block_address tt).0 ≡ some block
unfolding read_device one_block
reads_block = refl

finds_no_other : (read_device one_block (record { bus = 0; device = 2; function = 0 }) tt).0 ≡ none
unfolding read_device one_block
finds_no_other = refl

maps_region :
    virtio_region block 4
    ≡ some (record { base = 0x8000_2000; length = 8; notify_multiplier = 0; bar = 4 })
unfolding virtio_region
maps_region = refl

finds_block : find_virtio_block (push empty_inventory block) ≡ some block
unfolding find_virtio_block push
finds_block = refl

knows_transitional :
    is_virtio_block (record empty_device { vendor_id = 0x1af4; device_id = 0x1001 }) ≡ true
unfolding is_virtio_block
knows_transitional = refl

scan-InventoryOf_example :
    InventoryOf (all_present one_block tt).0 (scan one_block tt).0
    × ((scan one_block tt).1 ≡ (all_present one_block tt).1)
    × ((a : Bdf) (r : Unit {0}) → Answers one_block a r (read_device one_block a r).0)
scan-InventoryOf_example = scan-InventoryOf one_block tt

read_device-virtio_region_example :
    IsRegion block 4 (record { base = 0x8000_2000; length = 8; notify_multiplier = 0; bar = 4 })
read_device-virtio_region_example =
    read_device-virtio_region one_block block_address tt block 4
      (record { base = 0x8000_2000; length = 8; notify_multiplier = 0; bar = 4 }) reads_block
      maps_region
