-- ===== src/Pci.antt =====
-- crates/pci/src/lib.rs: devices, and the reads of the configuration space that describe one.
pub mod Inventory
pub mod Walking
pub mod Finding
pub mod Capabilities
use slopos.Base.{
  ℕ, zero, suc, ◌+◌, ◌-◌, ◌*◌, ◌/◌, ◌%◌, ◌^◌, ◌==◌, Bool, true, false, not, ◌&&◌, ◌||◌, List, [],
  ◌∷◌, get_elem?, set, replicate, Option, some, none, leb, ltb, if◌then◌else◌, checked_add, u64_mod,
  u32_mod,
}

-- The trait ConfigAccess, with the state that `&mut self` changes: bus, device, function, offset
pub record ConfigAccess (S : Type 0) : Type 0 where
  pub read_u32 : S → ℕ → ℕ → ℕ → ℕ → ℕ × S

-- A method that reads the configuration space
abbrev pub Reads : Type 0 → Type 0 → Type 0
Reads S A = S → A × S

abbrev pub pure : {S A : Type 0} → A → Reads S A
pure a s = (a, s)

infixl 5 ◌>>=◌
abbrev pub ◌>>=◌ : {S A B : Type 0} → Reads S A → (A → Reads S B) → Reads S B
(reads >>= rest) s = rest (reads s).0 (reads s).1

pub record Bdf : Type 0 where
  pub bus : ℕ
  pub device : ℕ
  pub function : ℕ

pub record VirtioCapability : Type 0 where
  pub valid : Bool
  pub bar : ℕ
  pub offset : ℕ
  pub length : ℕ
  pub notify_multiplier : ℕ

-- VirtioCapability::EMPTY
abbrev pub empty_capability : VirtioCapability
empty_capability = record { valid = false; bar = 0; offset = 0; length = 0; notify_multiplier = 0 }

-- The mask is the list of its 32 bits, the lowest first.
pub record Device : Type 0 where
  pub address : Bdf
  pub vendor_id : ℕ
  pub device_id : ℕ
  pub command : ℕ
  pub status : ℕ
  pub revision : ℕ
  pub programming_interface : ℕ
  pub subclass : ℕ
  pub class : ℕ
  pub header_type : ℕ
  pub subsystem_vendor_id : ℕ
  pub subsystem_id : ℕ
  pub interrupt_line : ℕ
  pub interrupt_pin : ℕ
  pub bars : List ℕ
  pub virtio_capability_mask : List Bool
  pub virtio_capabilities : List VirtioCapability

unfoldable pub is_multifunction : Device → Bool
is_multifunction d = d.header_type / 128 % 2 == 1

unfoldable pub virtio_device_type : Device → Option ℕ
virtio_device_type d =
    if not (d.vendor_id == 0x1af4)
    then none
    else if leb 0x1000 d.device_id && leb d.device_id 0x103f
    then some (d.device_id - 0x0fff)
    else if leb 0x1040 d.device_id && leb d.device_id 0x107f
    then some (d.device_id - 0x1040)
    else none

unfoldable pub is_virtio_block : Device → Bool
unfolding virtio_device_type
is_virtio_block d = elim (virtio_device_type d) [ none ↦ false | some kind ↦ kind == 2 ]

unfoldable pub nonzero : ℕ → Option ℕ
nonzero address = if address == 0 then none else some address

-- Bits 1 and 2 of the register tell the width, and the lowest four are no part of the address.
unfoldable pub bar_base : Device → ℕ → Option ℕ
unfolding nonzero
bar_base d index = elim (get_elem? d.bars index) [
  | none ↦ none
  | some low ↦
      if (low == 0) || ((low == 0xffff_ffff) || (low % 2 == 1))
      then none
      else if low / 2 % 4 == 2
      then elim (get_elem? d.bars (index + 1)) [
        | none ↦ none
        | some high ↦ nonzero (low / 16 * 16 + high * 2 ^ 32)
      ]
      else if leb (low / 2 % 4) 1
      then nonzero (low / 16 * 16)
      else none
]

pub record VirtioRegion : Type 0 where
  pub base : ℕ
  pub length : ℕ
  pub notify_multiplier : ℕ
  pub bar : ℕ

unfoldable pub virtio_region : Device → ℕ → Option VirtioRegion
unfolding bar_base
virtio_region d configuration_type = elim (get_elem? d.virtio_capabilities configuration_type) [
  | none ↦ none
  | some c ↦ elim c.valid [
    | false ↦ none
    | true ↦ elim (bar_base d c.bar) [
      | none ↦ none
      | some bar_base ↦ elim (checked_add u64_mod bar_base c.offset) [
        | none ↦ none
        | some base ↦ some (record {
          base = base;
          length = c.length;
          notify_multiplier = c.notify_multiplier;
          bar = c.bar;
        })
      ]
    ]
  ]
]

-- The mask and the array that the walk over the capability list fills
abbrev pub Capabilities : Type 0
Capabilities = List Bool × List VirtioCapability

abbrev pub no_capabilities : Capabilities
no_capabilities = (replicate 32 false, replicate 6 empty_capability)

module _ {S : Type 0} (config : ConfigAccess S) where
  unfoldable pub read_at : Bdf → ℕ → Reads S ℕ
  read_at a offset s = config.read_u32 s a.bus a.device a.function offset

  -- Some words in a row, the first at an offset
  unfoldable pub read_words : Bdf → ℕ → ℕ → Reads S (List ℕ)
  unfolding read_at
  read_words a zero offset = pure []
  read_words a (suc n) offset = do
    word ← read_at a offset
    words ← read_words a n (offset + 4)
    pure (word ∷ words)

  -- A capability of the list, with its first word; the types 1 to 5 have their places in the array.
  unfoldable pub read_capability : Bdf → ℕ → ℕ → Capabilities → Reads S Capabilities
  unfolding read_at
  read_capability a pointer capability found =
      let kind = capability / 2 ^ 24 % 256 in
      let length = capability / 2 ^ 16 % 256 in
      if (capability % 256 == 9)
        && ((leb 1 kind && leb kind 5) && (leb 16 length && leb (pointer + 15) 255))
      then (do
        bar ← read_at a (pointer + 4)
        offset ← read_at a (pointer + 8)
        region_length ← read_at a (pointer + 12)
        if ltb (bar % 256) 6 && not (region_length == 0)
            then (do
              notify_multiplier ←
                  if (kind == 2) && (leb 20 length && leb (pointer + 19) 255)
                  then read_at a (pointer + 16)
                  else pure 0
              pure (
                set found.0 kind true,
                set found.1 kind (record {
                  valid = true;
                  bar = bar % 256;
                  offset = offset;
                  length = region_length;
                  notify_multiplier = notify_multiplier;
                }),
              ))
            else pure found)
      else pure found

  -- `visited & bit != 0`
  unfoldable pub is_visited : List Bool → ℕ → Bool
  is_visited visited slot = elim (get_elem? visited slot) [ none ↦ false | some b ↦ b ]

  -- The loop, with the number of turns that are left
  unfoldable pub walk_capabilities : Bdf → ℕ → ℕ → List Bool → Capabilities → Reads S Capabilities
  unfolding read_at read_capability is_visited
  walk_capabilities a zero pointer visited found = pure found
  walk_capabilities a (suc turns) pointer visited found =
      elim (ltb pointer 0x40 || is_visited visited (pointer / 4)) [
        | true ↦ pure found
        | false ↦ do
          capability ← read_at a pointer
          next ← read_capability a pointer capability found
          walk_capabilities a turns (capability / 2 ^ 8 % 256 / 4 * 4)
              (set visited (pointer / 4) true) next
      ]

  unfoldable pub scan_virtio_capabilities : Bdf → Reads S Capabilities
  unfolding read_at walk_capabilities
  scan_virtio_capabilities a = do
    first ← read_at a 0x34
    walk_capabilities a 48 (first % 256 / 4 * 4) (replicate 64 false) no_capabilities

  -- The base address registers and the word of the subsystem, which headers of type 0 have
  unfoldable pub read_registers : Bdf → ℕ → Reads S (List ℕ × ℕ)
  unfolding read_at read_words
  read_registers a header_type =
      if header_type % 128 == 0
      then (do bars ← read_words a 6 0x10; subsystem ← read_at a 0x2c; pure (bars, subsystem))
      else pure (replicate 6 0, 0)

  -- `status & STATUS_CAPABILITIES_LIST != 0`
  unfoldable pub read_capabilities : Bdf → ℕ → Reads S Capabilities
  unfolding scan_virtio_capabilities
  read_capabilities a status =
      if status / 16 % 2 == 1 then scan_virtio_capabilities a else pure no_capabilities

  -- The part of `read_device` for a function that is there
  unfoldable pub read_present : Bdf → ℕ → Reads S Device
  unfolding read_at read_registers read_capabilities
  read_present a identity = do
    command_status ← read_at a 0x04
    class_revision ← read_at a 0x08
    header ← read_at a 0x0c
    registers ← read_registers a (header / 65536 % 256)
    interrupt ← read_at a 0x3c
    found ← read_capabilities a (command_status / 65536 % 65536)
    pure (record {
      address = a;
      vendor_id = identity % 65536;
      device_id = identity / 65536 % 65536;
      command = command_status % 65536;
      status = command_status / 65536 % 65536;
      revision = class_revision % 256;
      programming_interface = class_revision / 256 % 256;
      subclass = class_revision / 65536 % 256;
      class = class_revision / 2 ^ 24 % 256;
      header_type = header / 65536 % 256;
      subsystem_vendor_id = registers.1 % 65536;
      subsystem_id = registers.1 / 65536 % 65536;
      interrupt_line = interrupt % 256;
      interrupt_pin = interrupt / 256 % 256;
      bars = registers.0;
      virtio_capability_mask = found.0;
      virtio_capabilities = found.1;
    })

  unfoldable pub read_device : Bdf → Reads S (Option Device)
  unfolding read_at read_present
  read_device a = do
    identity ← read_at a 0x00
    if identity % 65536 == 0xffff
        then pure none
        else (read_present a identity >>= λ d. pure (some d))
