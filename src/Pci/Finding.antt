-- ===== src/Pci/Finding.antt =====
-- crates/pci/src/lib.rs: what the inventory of a scan holds.
use slopos.Base.{
  ℕ, zero, suc, ◌+◌, ◌≤◌, ◌<◌, ◌≡◌, ◌==◌, refl, sym, ◌∙◌, ap, inl, inr, List, [], ◌∷◌, ◌++◌,
  append-nil, append_assoc, length, length-append, length-set, length-replicate, take, take-set,
  ltb, arith, Bool-cases, subst, min,
}
use slopos.Pci.{ConfigAccess, Bdf, Device, read_device}
use slopos.Pci.Inventory.{
  Inventory, max_devices, empty_device, empty_inventory, devices, push, range, scan_buses, scan,
}
use slopos.Pci.Walking.{
  all_present, device_present, collect, push_all, Pushes, scan_buses-Pushes, Answers,
  read_device-Answers,
}

take_long {ℓ} :
    {A : Type ℓ} (n : ℕ) (xs ys : List A) → n ≤ length xs → take n (xs ++ ys) ≡ take n xs
take_long zero xs ys h = refl
take_long (suc n) [] ys h = absurd (omega arith)
take_long (suc n) (x ∷ xs) ys h = ap (◌∷◌ x) (take_long n xs ys (omega arith))

take_short {ℓ} : {A : Type ℓ} (n : ℕ) (xs : List A) → length xs ≤ n → take n xs ≡ xs
take_short zero [] h = refl
take_short (suc n) [] h = refl
take_short zero (x ∷ xs) h = absurd (omega arith)
take_short (suc n) (x ∷ xs) h = ap (◌∷◌ x) (take_short n xs (omega arith))

-- The inventory of a list of devices: the first 64, and whether there were more.
pub record InventoryOf (ds : List Device) (inventory : Inventory) : Type 0 where
  pub size : length inventory.slots ≡ max_devices
  pub counted : inventory.count ≡ min (length ds) max_devices
  pub holds : devices inventory ≡ take max_devices ds
  pub tells : inventory.overflowed ≡ ltb max_devices (length ds)

push-InventoryOf :
    (ds : List Device) (inventory : Inventory) (d : Device)
    → InventoryOf ds inventory
    → InventoryOf (ds ++ d ∷ []) (push inventory d)
unfolding push devices
push-InventoryOf ds inventory d h =
    let more = length-append ds (d ∷ []) in
    elim (Bool-cases (inventory.count == max_devices)) [
      | inl f ↦
          let full : max_devices ≤ length ds = ground (arith, h.counted) in
          rw f (record {
            size = h.size;
            counted = omega (arith, h.counted, more);
            holds = h.holds ∙ sym (take_long max_devices ds (d ∷ []) full);
            tells = ground (arith, more);
          })
      | inr f ↦
          let free : length ds < max_devices = ground (arith, h.counted) in
          let at : inventory.count ≡ length ds = ground (arith, h.counted) in
          let next : inventory.count + 1 ≡ suc inventory.count = omega arith in
          rw f (record {
            size = length-set inventory.slots inventory.count d ∙ h.size;
            counted = omega (arith, at, more);
            holds =
                rw next (take-set inventory.slots inventory.count d (omega (arith, h.size)))
                ∙ ap (λ front. front ++ d ∷ []) (h.holds ∙ take_short max_devices ds (omega arith))
                ∙ sym (take_short max_devices (ds ++ d ∷ []) (omega (arith, more)));
            tells = ground (arith, h.tells, more);
          })
    ]

push_all-InventoryOf :
    (ds : List Device) (inventory : Inventory) (more : List Device)
    → InventoryOf ds inventory
    → InventoryOf (ds ++ more) (push_all inventory more)
unfolding push_all
push_all-InventoryOf ds inventory [] h = rw (append-nil ds) h
push_all-InventoryOf ds inventory (d ∷ more) h = rw (sym (append_assoc ds (d ∷ []) more)) (
    push_all-InventoryOf (ds ++ d ∷ []) (push inventory d) more (push-InventoryOf ds inventory d h))

empty-InventoryOf : InventoryOf [] empty_inventory
unfolding devices
empty-InventoryOf = record {
  size = length-replicate max_devices empty_device;
  counted = refl;
  holds = refl;
  tells = refl;
}

scan_buses-InventoryOf :
    {S : Type 0} (config : ConfigAccess S) (xs : List ℕ) (s : S)
    → InventoryOf
        (collect (λ bus. collect (device_present config bus) (range 0 32)) xs s).0
        (scan_buses config xs empty_inventory s).0
      × ((scan_buses config xs empty_inventory s).1
          ≡ (collect (λ bus. collect (device_present config bus) (range 0 32)) xs s).1)
unfolding Pushes
scan_buses-InventoryOf {S = S} config xs s =
    let r = scan_buses-Pushes config xs empty_inventory s in
    (
      subst
          (λ (q : Inventory × S).
            InventoryOf (collect (λ bus. collect (device_present config bus) (range 0 32)) xs s).0
              q.0)
          (sym r) (push_all-InventoryOf [] empty_inventory _ empty-InventoryOf),
      ap (λ (q : Inventory × S). q.1) r,
    )

-- `scan` reads what a walk over the buses reads that asks for function 0 of each of the 32 devices
-- of each of the 256 buses, and for functions 1 to 7 where bit 7 of the header type of function 0
-- is set. Its inventory holds the first 64 of the devices that the walk lists, in their order,
-- counts them, and is marked as overflowed exactly if there are more. A function is absent where
-- its vendor reads as 0xffff, and otherwise has the vendor, device, class and header type that its
-- first words tell.
pub scan-InventoryOf :
    {S : Type 0} (config : ConfigAccess S) (s : S)
    → InventoryOf (all_present config s).0 (scan config s).0
      × ((scan config s).1 ≡ (all_present config s).1)
      × ((a : Bdf) (r : S) → Answers config a r (read_device config a r).0)
unfolding scan all_present
scan-InventoryOf config s =
    let (listed, reads) = scan_buses-InventoryOf config (range 0 256) s in
    (listed, reads, read_device-Answers config)
