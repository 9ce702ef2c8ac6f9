-- ===== src/Pci/Inventory.antt =====
-- crates/pci/src/lib.rs: the inventory of a scan of all buses.
use slopos.Base.{
  ℕ, zero, suc, ◌+◌, ◌==◌, Bool, true, false, List, [], ◌∷◌, set, take, find, filter, replicate,
  Option, some, none, if◌then◌else◌,
}
use slopos.Pci.{
  ConfigAccess, Reads, pure, ◌>>=◌, Bdf, Device, empty_capability, is_multifunction,
  is_virtio_block, virtio_device_type, read_device,
}

abbrev pub max_devices : ℕ
max_devices = 64

-- Device::EMPTY
abbrev pub empty_device : Device
empty_device = record {
  address = record { bus = 0; device = 0; function = 0 };
  vendor_id = 0;
  device_id = 0;
  command = 0;
  status = 0;
  revision = 0;
  programming_interface = 0;
  subclass = 0;
  class = 0;
  header_type = 0;
  subsystem_vendor_id = 0;
  subsystem_id = 0;
  interrupt_line = 0;
  interrupt_pin = 0;
  bars = replicate 6 0;
  virtio_capability_mask = replicate 32 false;
  virtio_capabilities = replicate 6 empty_capability;
}

pub record Inventory : Type 0 where
  pub slots : List Device
  pub count : ℕ
  pub overflowed : Bool

-- Inventory::empty
abbrev pub empty_inventory : Inventory
empty_inventory = record {
  slots = replicate max_devices empty_device;
  count = 0;
  overflowed = false;
}

unfoldable pub devices : Inventory → List Device
devices inventory = take inventory.count inventory.slots

unfoldable pub is_virtio : Device → Bool
unfolding virtio_device_type
is_virtio d = elim (virtio_device_type d) [ none ↦ false | some kind ↦ true ]

unfoldable pub virtio_devices : Inventory → List Device
unfolding devices is_virtio
virtio_devices inventory = filter is_virtio (devices inventory)

unfoldable pub virtio_blocks : Inventory → List Device
unfolding devices is_virtio_block
virtio_blocks inventory = filter is_virtio_block (devices inventory)

unfoldable pub find_virtio_block : Inventory → Option Device
unfolding devices is_virtio_block find
find_virtio_block inventory = elim (find is_virtio_block (devices inventory)) [
  | none ↦ none
  | some found ↦ some found.1
]

unfoldable pub push : Inventory → Device → Inventory
push inventory d =
    if inventory.count == max_devices
    then record inventory { overflowed = true }
    else record inventory {
      slots = set inventory.slots inventory.count d;
      count = inventory.count + 1;
    }

unfoldable pub push_found : Inventory → Option Device → Inventory
unfolding push
push_found inventory none = inventory
push_found inventory (some d) = push inventory d

-- The numbers of a `for` loop
unfoldable pub range : ℕ → ℕ → List ℕ
range first zero = []
range first (suc n) = first ∷ range (first + 1) n

module _ {S : Type 0} (config : ConfigAccess S) where
  -- `if let Some(device) = read_device(...) { inventory.push(device); }`
  unfoldable pub scan_function : Bdf → Inventory → Reads S Inventory
  unfolding read_device push_found
  scan_function a inventory = do found ← read_device config a; pure (push_found inventory found)

  unfoldable pub scan_functions : ℕ → ℕ → List ℕ → Inventory → Reads S Inventory
  unfolding scan_function
  scan_functions bus device [] inventory = pure inventory
  scan_functions bus device (function ∷ rest) inventory = do
    next ← scan_function (record { bus = bus; device = device; function = function }) inventory
    scan_functions bus device rest next

  -- What follows on the first function of a device
  unfoldable pub scan_others : ℕ → ℕ → Inventory → Option Device → Reads S Inventory
  unfolding push is_multifunction scan_functions range
  scan_others bus device inventory none = pure inventory
  scan_others bus device inventory (some d) =
      if is_multifunction d
      then scan_functions bus device (range 1 7) (push inventory d)
      else pure (push inventory d)

  -- The body of the loop over the devices of a bus
  unfoldable pub scan_device : ℕ → ℕ → Inventory → Reads S Inventory
  unfolding read_device scan_others
  scan_device bus device inventory = do
    first ← read_device config (record { bus = bus; device = device; function = 0 })
    scan_others bus device inventory first

  unfoldable pub scan_devices : ℕ → List ℕ → Inventory → Reads S Inventory
  unfolding scan_device
  scan_devices bus [] inventory = pure inventory
  scan_devices bus (device ∷ rest) inventory = do
    next ← scan_device bus device inventory
    scan_devices bus rest next

  unfoldable pub scan_buses : List ℕ → Inventory → Reads S Inventory
  unfolding scan_devices range
  scan_buses [] inventory = pure inventory
  scan_buses (bus ∷ rest) inventory = do
    next ← scan_devices bus (range 0 32) inventory
    scan_buses rest next

  unfoldable pub scan : Reads S Inventory
  unfolding scan_buses range
  scan = scan_buses (range 0 256) empty_inventory
