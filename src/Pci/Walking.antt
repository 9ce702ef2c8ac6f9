-- ===== src/Pci/Walking.antt =====
-- crates/pci/src/lib.rs: a scan as a list of the functions that are there, found by a walk.
use slopos.Pci.{
  ConfigAccess, Reads, pure, ◌>>=◌, Bdf, Device, is_multifunction, read_device, read_present,
  read_at,
}
use slopos.Base.{
  ℕ, ◌/◌, ◌%◌, ◌^◌, ◌≢◌, ◌≡◌, ◌==◌, refl, sym, ◌∙◌, ap, inl, inr, List, [], ◌∷◌, ◌++◌, Option, some,
  none, if◌then◌else◌, arith, Bool-cases,
}
use slopos.Pci.Inventory.{
  Inventory, push, range, scan_function, push_found, scan_others, scan_functions, scan_device,
  scan_devices, scan_buses,
}

unfoldable pub listed : Option Device → List Device
listed none = []
listed (some d) = d ∷ []

-- The results of a method at each entry of a list, one behind the other
unfoldable pub collect : {S A B : Type 0} → (A → Reads S (List B)) → List A → Reads S (List B)
collect each [] = pure []
collect each (x ∷ xs) = do here ← each x; rest ← collect each xs; pure (here ++ rest)

module _ {S : Type 0} (config : ConfigAccess S) where
  unfoldable pub function_present : Bdf → Reads S (List Device)
  unfolding read_device listed
  function_present a = do found ← read_device config a; pure (listed found)

  -- Functions 1 to 7 of a device are looked for where bit 7 of the header type of function 0 is
  -- set.
  unfoldable pub others_present : ℕ → ℕ → Option Device → Reads S (List Device)
  unfolding is_multifunction function_present collect range
  others_present bus device none = pure []
  others_present bus device (some d) =
      if d.header_type / 128 % 2 == 1
      then (do
        others ←
            collect (λ f. function_present (record { bus = bus; device = device; function = f }))
              (range 1 7)
        pure (d ∷ others))
      else pure (d ∷ [])

  unfoldable pub device_present : ℕ → ℕ → Reads S (List Device)
  unfolding read_device others_present
  device_present bus device = do
    first ← read_device config (record { bus = bus; device = device; function = 0 })
    others_present bus device first

  unfoldable pub all_present : Reads S (List Device)
  unfolding collect device_present range
  all_present = collect (λ bus. collect (device_present bus) (range 0 32)) (range 0 256)

-- What a function answers, in the words of its configuration space that are read first: the
-- identity, the command and status, the class and revision, and the header.
pub data Answers {S : Type 0} (config : ConfigAccess S) (a : Bdf) (s : S)
    : Option Device → Type 0 where
  absent :
      (config.read_u32 s a.bus a.device a.function 0x00).0 % 65536 ≡ 0xffff
      → Answers config a s none
  present :
      (d : Device) (identity command class header : ℕ × S)
      → identity ≡ config.read_u32 s a.bus a.device a.function 0x00
      → command ≡ config.read_u32 identity.1 a.bus a.device a.function 0x04
      → class ≡ config.read_u32 command.1 a.bus a.device a.function 0x08
      → header ≡ config.read_u32 class.1 a.bus a.device a.function 0x0c
      → identity.0 % 65536 ≢ 0xffff
      → d.address ≡ a
      → d.vendor_id ≡ identity.0 % 65536
      → d.device_id ≡ identity.0 / 65536 % 65536
      → d.class ≡ class.0 / 2 ^ 24 % 256
      → d.header_type ≡ header.0 / 65536 % 256
      → Answers config a s (some d)

pub read_device-Answers :
    {S : Type 0} (config : ConfigAccess S) (a : Bdf) (s : S)
    → Answers config a s (read_device config a s).0
unfolding read_device read_at read_present
read_device-Answers config a s =
    let identity = config.read_u32 s a.bus a.device a.function 0x00 in
    let command = config.read_u32 identity.1 a.bus a.device a.function 0x04 in
    let class = config.read_u32 command.1 a.bus a.device a.function 0x08 in
    let header = config.read_u32 class.1 a.bus a.device a.function 0x0c in
    elim (Bool-cases (identity.0 % 65536 == 0xffff)) [
      | inl f ↦ rw f (absent (ground arith))
      | inr f ↦ rw f (
          present (read_present config a identity.0 identity.1).0 identity command class header refl
            refl refl refl (λ z. ground arith) refl refl refl refl refl)
    ]

unfoldable pub push_all : Inventory → List Device → Inventory
unfolding push
push_all inventory [] = inventory
push_all inventory (d ∷ ds) = push_all (push inventory d) ds

push_all-append :
    (inventory : Inventory) (xs ys : List Device)
    → push_all inventory (xs ++ ys) ≡ push_all (push_all inventory xs) ys
unfolding push_all
push_all-append inventory [] ys = refl
push_all-append inventory (x ∷ xs) ys = push_all-append (push inventory x) xs ys

push_found-listed :
    (inventory : Inventory) (found : Option Device)
    → push_found inventory found ≡ push_all inventory (listed found)
unfolding push_found listed push_all
push_found-listed inventory none = refl
push_found-listed inventory (some d) = refl

-- The method pushes what the other one lists, and reads the same.
unfoldable pub Pushes :
    {S : Type 0} → (Inventory → Reads S Inventory) → Reads S (List Device) → Type 0
Pushes {S = S} pushes lists =
    (inventory : Inventory) (s : S)
    → pushes inventory s ≡ (push_all inventory (lists s).0, (lists s).1)

module _ {S : Type 0} (config : ConfigAccess S) where
  -- A loop whose turns push what the other's list
  loop-Pushes :
      {A : Type 0} (loop : List A → Inventory → Reads S Inventory)
      (turn : A → Inventory → Reads S Inventory) (lists : A → Reads S (List Device)) (xs : List A)
      → ((inventory : Inventory) (s : S) → loop [] inventory s ≡ (inventory, s))
      → ((x : A) (rest : List A) (inventory : Inventory) (s : S)
          → loop (x ∷ rest) inventory s ≡ (turn x inventory >>= loop rest) s)
      → ((x : A) → Pushes (turn x) (lists x))
      → Pushes (loop xs) (collect lists xs)
  unfolding Pushes collect push_all
  loop-Pushes loop turn lists [] done next each inventory s = done inventory s
  loop-Pushes loop turn lists (x ∷ xs) done next each inventory s =
      next x xs inventory s
      ∙ ap (λ (r : Inventory × S). loop xs r.0 r.1) (each x inventory s)
      ∙ loop-Pushes loop turn lists xs done next each (push_all inventory (lists x s).0)
          (lists x s).1
      ∙ ap (λ i. (i, (collect lists xs (lists x s).1).1))
          (sym (push_all-append inventory (lists x s).0 (collect lists xs (lists x s).1).0))

  scan_function-Pushes : (a : Bdf) → Pushes (scan_function config a) (function_present config a)
  unfolding Pushes scan_function function_present
  scan_function-Pushes a inventory s =
      ap (λ i. (i, (read_device config a s).1))
        (push_found-listed inventory (read_device config a s).0)

  scan_functions-Pushes :
      (bus device : ℕ) (xs : List ℕ)
      → Pushes (scan_functions config bus device xs) (
          collect
            (λ f. function_present config (record { bus = bus; device = device; function = f }))
            xs)
  unfolding scan_functions
  scan_functions-Pushes bus device xs =
      loop-Pushes (scan_functions config bus device)
        (λ f. scan_function config (record { bus = bus; device = device; function = f }))
        (λ f. function_present config (record { bus = bus; device = device; function = f })) xs
        (λ i s. refl) (λ x rest i s. refl)
        (λ f. scan_function-Pushes (record { bus = bus; device = device; function = f }))

  scan_others-Pushes :
      (bus device : ℕ) (first : Option Device)
      → Pushes (λ i. scan_others config bus device i first) (others_present config bus device first)
  unfolding Pushes scan_others others_present push_all is_multifunction
  scan_others-Pushes bus device none inventory s = refl
  scan_others-Pushes bus device (some d) inventory s = elim (Bool-cases (is_multifunction d)) [
    | inr f ↦ rw f refl
    | inl f ↦ rw f (scan_functions-Pushes bus device (range 1 7) (push inventory d) s)
  ]

  scan_device-Pushes :
      (bus device : ℕ) → Pushes (scan_device config bus device) (device_present config bus device)
  unfolding Pushes scan_device device_present
  scan_device-Pushes bus device inventory s =
      let r = read_device config (record { bus = bus; device = device; function = 0 }) s in
      scan_others-Pushes bus device r.0 inventory r.1

  scan_devices-Pushes :
      (bus : ℕ) (xs : List ℕ)
      → Pushes (scan_devices config bus xs) (collect (device_present config bus) xs)
  unfolding scan_devices
  scan_devices-Pushes bus xs =
      loop-Pushes (scan_devices config bus) (scan_device config bus) (device_present config bus) xs
        (λ i s. refl) (λ x rest i s. refl) (scan_device-Pushes bus)

  pub scan_buses-Pushes :
      (xs : List ℕ)
      → Pushes
          (scan_buses config xs)
          (collect (λ bus. collect (device_present config bus) (range 0 32)) xs)
  unfolding scan_buses
  scan_buses-Pushes xs =
      loop-Pushes (scan_buses config) (λ bus. scan_devices config bus (range 0 32))
        (λ bus. collect (device_present config bus) (range 0 32)) xs (λ i s. refl)
        (λ x rest i s. refl) (λ bus. scan_devices-Pushes bus (range 0 32))
