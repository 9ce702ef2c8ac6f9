-- ===== src/Pci/Capabilities.antt =====
-- crates/pci/src/lib.rs: what the walk over the capability list leaves in a device.
use slopos.Pci.{
  ConfigAccess, Bdf, Device, VirtioCapability, VirtioRegion, Capabilities, empty_capability,
  no_capabilities, read_at, read_capability, walk_capabilities, is_visited,
  scan_virtio_capabilities, read_present, read_device, bar_base, virtio_region, read_capabilities,
}
use slopos.Base.{
  ℕ, zero, suc, ◌+◌, ◌*◌, ◌/◌, ◌%◌, ◌^◌, ◌≤◌, ◌<◌, ◌≡◌, ◌≢◌, ◌==◌, refl, ◌∙◌, ap, inl, inr, Bool,
  true, false, not, ◌&&◌, ◌||◌, List, length, length-set, get_elem?, get_elem?-set,
  get_elem?-replicate, set, replicate, some, ltb, leb, arith, Bool-cases, Option-cases, u64_mod,
  subst,
}

-- The mask has a bit for each capability that was found, and each of these is of a type from 1 to 5,
-- in a base address register that exists, and not empty.
pub record Consistent (mask : List Bool) (capabilities : List VirtioCapability) : Type 0 where
  pub bits : length mask ≡ 32
  pub places : length capabilities ≡ 6
  pub agrees :
      (k : ℕ) (c : VirtioCapability)
      → get_elem? capabilities k ≡ some c
      → get_elem? mask k ≡ some c.valid
  pub sound :
      (k : ℕ) (c : VirtioCapability)
      → get_elem? capabilities k ≡ some c
      → c.valid ≡ true
      → (1 ≤ k) × (k ≤ 5) × (c.bar < 6) × (c.length ≢ 0)

set-Consistent :
    (mask : List Bool) (capabilities : List VirtioCapability) (kind : ℕ) (c : VirtioCapability)
    → Consistent mask capabilities
    → c.valid ≡ true
    → 1 ≤ kind
    → kind ≤ 5
    → c.bar < 6
    → c.length ≢ 0
    → Consistent (set mask kind true) (set capabilities kind c)
set-Consistent mask capabilities kind c h valid low high bar full = record {
  bits = length-set mask kind true ∙ h.bits;
  places = length-set capabilities kind c ∙ h.places;
  agrees = λ k o e. elim (Bool-cases (kind == k)) [
    | inl f ↦ ground (
      arith,
      e,
      get_elem?-set capabilities kind k c,
      get_elem?-set mask kind k true,
      h.bits,
      h.places,
    )
    | inr f ↦ ground (
      arith,
      h.agrees k o,
      e,
      get_elem?-set capabilities kind k c,
      get_elem?-set mask kind k true,
    )
  ];
  sound = λ k o e v. elim (Bool-cases (kind == k)) [
    | inl f ↦
        let same : c ≡ o = ground (arith, e, get_elem?-set capabilities kind k c, h.places) in
        subst (λ x. (1 ≤ k) × (k ≤ 5) × (x.bar < 6) × (x.length ≢ 0)) same
          (ground arith, ground arith, bar, full)
    | inr f ↦ h.sound k o (ground (arith, e, get_elem?-set capabilities kind k c)) v
  ];
}

module _ {S : Type 0} (config : ConfigAccess S) (a : Bdf) where
  read_capability-Consistent :
      (pointer capability : ℕ) (found : Capabilities) (s : S)
      → Consistent found.0 found.1
      → Consistent
          (read_capability config a pointer capability found s).0.0
          (read_capability config a pointer capability found s).0.1
  unfolding read_capability
  read_capability-Consistent pointer capability found s h =
      let kind = capability / 2 ^ 24 % 256 in
      let size = capability / 2 ^ 16 % 256 in
      let s1 = (read_at config a (pointer + 4) s).1 in
      let bar = (read_at config a (pointer + 4) s).0 in
      let s2 = (read_at config a (pointer + 8) s1).1 in
      let region = (read_at config a (pointer + 12) s2).0 in
      elim (Bool-cases (
        (capability % 256 == 9)
        && ((leb 1 kind && leb kind 5) && (leb 16 size && leb (pointer + 15) 255)))) [
          | inr f ↦ rw f h
          | inl f ↦ rw f (elim (Bool-cases (ltb (bar % 256) 6 && not (region == 0))) [
            | inr g ↦ rw g h
            | inl g ↦ rw g (
                set-Consistent found.0 found.1 kind _ h refl (ground arith) (ground arith)
                  (ground arith) (λ z. ground arith))
          ])
        ]

  walk_capabilities-Consistent :
      (turns pointer : ℕ) (visited : List Bool) (found : Capabilities) (s : S)
      → Consistent found.0 found.1
      → Consistent
          (walk_capabilities config a turns pointer visited found s).0.0
          (walk_capabilities config a turns pointer visited found s).0.1
  unfolding walk_capabilities
  walk_capabilities-Consistent zero pointer visited found s h = h
  walk_capabilities-Consistent (suc turns) pointer visited found s h =
      let s1 = (read_at config a pointer s).1 in
      let capability = (read_at config a pointer s).0 in
      let next = read_capability config a pointer capability found s1 in
      elim (Bool-cases (ltb pointer 0x40 || is_visited config visited (pointer / 4))) [
        | inl f ↦ rw (walk_capabilities, f) h
        | inr f ↦
            rw (walk_capabilities, f)
              (walk_capabilities-Consistent turns (capability / 2 ^ 8 % 256 / 4 * 4)
                (set visited (pointer / 4) true) next.0 next.1
                (read_capability-Consistent pointer capability found s1 h))
      ]

no_capabilities-Consistent : Consistent no_capabilities.0 no_capabilities.1
no_capabilities-Consistent = record {
  bits = refl;
  places = refl;
  agrees = λ k c e.
      ground (arith, e, get_elem?-replicate 32 k false, get_elem?-replicate 6 k empty_capability);
  sound = λ k c e v. absurd (ground (arith, e, v, get_elem?-replicate 6 k empty_capability));
}

some-injective : {A : Type 0} {x y : A} → some x ≡ some y → x ≡ y
some-injective h = cc

-- What a function that was found holds
pub record IsFound (a : Bdf) (d : Device) : Type 0 where
  pub address : d.address ≡ a
  pub vendor : d.vendor_id ≢ 0xffff
  pub capabilities : Consistent d.virtio_capability_mask d.virtio_capabilities

module _ {S : Type 0} (config : ConfigAccess S) (a : Bdf) where
  read_capabilities-Consistent :
      (status : ℕ) (s : S)
      → Consistent
          (read_capabilities config a status s).0.0
          (read_capabilities config a status s).0.1
  unfolding read_capabilities scan_virtio_capabilities
  read_capabilities-Consistent status s = elim (Bool-cases (status / 16 % 2 == 1)) [
    | inr f ↦ rw f no_capabilities-Consistent
    | inl f ↦
        let first = read_at config a 0x34 s in
        rw f (
          walk_capabilities-Consistent config a 48 (first.0 % 256 / 4 * 4) (replicate 64 false)
            no_capabilities first.1 no_capabilities-Consistent)
  ]

  read_present-IsFound :
      (identity : ℕ) (s : S)
      → identity % 65536 ≢ 0xffff
      → IsFound a (read_present config a identity s).0
  unfolding read_present
  read_present-IsFound identity s h = record {
    address = refl;
    vendor = h;
    capabilities = read_capabilities-Consistent ((read_at config a 4 s).0 / 65536 % 65536) _;
  }

  pub read_device-IsFound : (s : S) (d : Device) → (read_device config a s).0 ≡ some d → IsFound a d
  unfolding read_device
  read_device-IsFound s d h =
      let identity = (read_at config a 0 s).0 in
      let s1 = (read_at config a 0 s).1 in
      elim (Bool-cases (identity % 65536 == 0xffff)) [
        | inl f ↦ absurd (ground arith)
        | inr f ↦
            let e : some (read_present config a identity s1).0 ≡ some d = ground arith in
            subst (IsFound a) (some-injective e)
              (read_present-IsFound identity s1 (λ z. ground arith))
      ]

-- The region of a capability: the mask knows it, its register exists, it is not empty and starts at
-- or above the base address, within 64 bits.
pub record IsRegion (d : Device) (kind : ℕ) (r : VirtioRegion) : Type 0 where
  pub known : get_elem? d.virtio_capability_mask kind ≡ some true
  pub kinds : (1 ≤ kind) × (kind ≤ 5)
  pub bar : r.bar < 6
  pub full : r.length ≢ 0
  pub start : ℕ
  pub mapped : bar_base d r.bar ≡ some start
  pub above : start ≤ r.base
  pub fits : r.base < u64_mod

virtio_region-IsRegion :
    (a : Bdf) (d : Device) (kind : ℕ) (r : VirtioRegion)
    → IsFound a d
    → virtio_region d kind ≡ some r
    → IsRegion d kind r
unfolding virtio_region
virtio_region-IsRegion a d kind r is h =
    elim (Option-cases (get_elem? d.virtio_capabilities kind)) [
      | inl f ↦ absurd (ground arith)
      | inr (c, f) ↦ elim (Bool-cases c.valid) [
        | inr v ↦ absurd (ground arith)
        | inl v ↦ elim (Option-cases (bar_base d c.bar)) [
          | inl g ↦ absurd (ground arith)
          | inr (start, g) ↦ elim (Bool-cases (ltb (start + c.offset) u64_mod)) [
            | inr b ↦ absurd (ground arith)
            | inl b ↦
                let sound = is.capabilities.sound kind c f v in
                let made : some (record {
                  base = start + c.offset;
                  length = c.length;
                  notify_multiplier = c.notify_multiplier;
                  bar = c.bar;
                })
                    ≡ some r =
                  ground arith in
                subst (IsRegion d kind) (some-injective made) (record {
                  known = is.capabilities.agrees kind c f ∙ ap some v;
                  kinds = (sound.0, sound.1);
                  bar = sound.2;
                  full = sound.3;
                  start = start;
                  mapped = g;
                  above = omega arith;
                  fits = ground arith;
                })
          ]
        ]
      ]
    ]

-- A region that `virtio_region` gives of a device that `read_device` found, whatever the
-- configuration space answers, is of one of the types 1 to 5, has its bit in the mask, is not
-- empty, and lies in one of the six base address registers, at or above its base and below 2^64.
pub read_device-virtio_region :
    {S : Type 0} (config : ConfigAccess S) (a : Bdf) (s : S) (d : Device) (kind : ℕ)
    (r : VirtioRegion)
    → (read_device config a s).0 ≡ some d
    → virtio_region d kind ≡ some r
    → IsRegion d kind r
read_device-virtio_region config a s d kind r h e =
    virtio_region-IsRegion a d kind r (read_device-IsFound config a s d h) e
