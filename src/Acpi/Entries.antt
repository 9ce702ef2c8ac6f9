-- ===== src/Acpi/Entries.antt =====
-- crates/acpi/src/lib.rs: the MADT as a list of entries, each a byte string that is read on its own,
-- and what they add up to, in lists without bounds.
use slopos.Base.{
  Bool, ℕ, zero, suc, ◌+◌, ◌%◌, ◌≤◌, ◌≡◌, ◌==◌, sym, ◌∙◌, ap, ◌&&◌, List, [], ◌∷◌, ◌++◌, length,
  length-take, length-drop, get_elem?, get_elem?-some, take, drop, slice-take, drop-drop, some, ok,
  arith, leb, if◌then◌else◌,
}
use slopos.Elf.{get_slice, from_le_bytes}
use slopos.Acpi.{byte_at, read_number}
use slopos.Acpi.Madt.{MadtInfo, IoApic, InterruptOverride, io_apic_list, interrupt_overrides}

-- A number of some bytes at a place of an entry
unfoldable pub number : List ℕ → ℕ → ℕ → ℕ
unfolding from_le_bytes
number e size at = from_le_bytes (take size (drop at e))

-- What is known of a machine
pub record Topology : Type 0 where
  pub local_apic_address : ℕ
  pub pcat_compatible : Bool
  pub enabled_processors : ℕ
  pub io_apics : List IoApic
  pub overrides : List InterruptOverride

unfoldable pub topology : MadtInfo → Topology
unfolding io_apic_list interrupt_overrides
topology info = record {
  local_apic_address = info.local_apic_address;
  pcat_compatible = info.pcat_compatible;
  enabled_processors = info.enabled_processors;
  io_apics = io_apic_list info;
  overrides = interrupt_overrides info;
}

unfoldable pub processor : ℕ → Topology → Topology
processor flags t = record t {
  enabled_processors = if flags % 4 == 0 then t.enabled_processors else t.enabled_processors + 1;
}

unfoldable pub io_apic_of : List ℕ → IoApic
unfolding number
io_apic_of e = record {
  id = number e 1 2;
  address = number e 4 4;
  global_interrupt_base = number e 4 8;
}

unfoldable pub override_of : List ℕ → InterruptOverride
unfolding number
override_of e = record {
  bus = number e 1 2;
  source = number e 1 3;
  global_interrupt = number e 4 4;
  flags = number e 2 8;
}

-- An entry of a type that is not known, or too short for its type, says nothing.
unfoldable pub with_entry : List ℕ → Topology → Topology
unfolding number processor io_apic_of override_of
with_entry e t =
    if (number e 1 0 == 0) && leb 8 (length e)
    then processor (number e 4 4) t
    else if (number e 1 0 == 1) && leb 12 (length e)
    then record t { io_apics = t.io_apics ++ io_apic_of e ∷ [] }
    else if (number e 1 0 == 2) && leb 10 (length e)
    then record t { overrides = t.overrides ++ override_of e ∷ [] }
    else if (number e 1 0 == 5) && leb 12 (length e)
    then record t { local_apic_address = number e 8 4 }
    else if (number e 1 0 == 9) && leb 16 (length e)
    then processor (number e 4 8) t
    else t

unfoldable pub with_entries : List (List ℕ) → Topology → Topology
unfolding with_entry
with_entries [] t = t
with_entries (e ∷ es) t = with_entries es (with_entry e t)

unfoldable pub concat : List (List ℕ) → List ℕ
concat [] = []
concat (e ∷ es) = e ++ concat es

-- An entry is at least its type and its length, and says its own length.
pub record IsEntry (e : List ℕ) : Type 0 where
  pub long : 2 ≤ length e
  pub honest : number e 1 1 ≡ length e

-- The entry of some length at a place of a table
abbrev pub entry_at : List ℕ → ℕ → ℕ → List ℕ
entry_at bytes offset size = take size (drop offset bytes)

pub length-entry_at :
    (bytes : List ℕ) (offset size : ℕ)
    → offset + size ≤ length bytes
    → length (entry_at bytes offset size) ≡ size
length-entry_at bytes offset size h =
    omega (arith, length-take size (drop offset bytes), length-drop offset bytes)

-- A read within an entry is a read of the entry.
pub read_number-number :
    (bytes : List ℕ) (offset size n at j : ℕ)
    → offset + size ≤ length bytes
    → at + n ≤ size
    → j ≡ offset + at
    → read_number n bytes j ≡ ok (number (entry_at bytes offset size) n at)
unfolding read_number get_slice number
read_number-number bytes offset size n at j h le e =
    let slice = slice-take size at n (drop offset bytes) le in
    let place : drop at (drop offset bytes) ≡ drop j bytes =
      drop-drop offset at bytes ∙ ap (λ k. drop k bytes) (sym e) in
    rw (slice, place) (ground arith)

from_le_bytes_one :
    (xs : List ℕ) (i b : ℕ) → get_elem? xs i ≡ some b → from_le_bytes (take 1 (drop i xs)) ≡ b
unfolding from_le_bytes
from_le_bytes_one [] i b h = absurd (cc)
from_le_bytes_one (x ∷ xs) zero b h = ground arith
from_le_bytes_one (x ∷ xs) (suc i) b h = from_le_bytes_one xs i b h

pub byte_at-number :
    (bytes : List ℕ) (offset size at j : ℕ)
    → offset + size ≤ length bytes
    → at + 1 ≤ size
    → j ≡ offset + at
    → byte_at bytes j ≡ ok (number (entry_at bytes offset size) 1 at)
unfolding byte_at number
byte_at-number bytes offset size at j h le e =
    let (b, f) = get_elem?-some bytes j (omega arith) in
    let slice = slice-take size at 1 (drop offset bytes) le in
    let place : drop at (drop offset bytes) ≡ drop j bytes =
      drop-drop offset at bytes ∙ ap (λ k. drop k bytes) (sym e) in
    rw (slice, place, f) (ap ok (sym (from_le_bytes_one bytes j b f)))
