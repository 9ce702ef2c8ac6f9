-- ===== src/SharedMemory/Stages.antt =====
-- kernel/src/shared_memory_service.rs: the stages that a slot goes through.
use slopos.SharedMemory.{
  Memory, SharedMemoryHandle, SharedMemorySlot, index, is_handle, with_slot, truncate, retain, fill,
  write_page, invalid_handle, frame_and_length, page_size,
}
use slopos.Base.{
  ℕ, ◌+◌, ◌≤◌, ◌≡◌, true, not, List, get_elem?, some, ok, err, checked_add, u16_mod, if◌then◌else◌,
  Option-cases, Result-cases, ap, refl, set, inl, inr, arith, get_elem?-set, replicate,
}

-- How far a slot has gone: its generation, and one more where it is free. A handle of an earlier
-- stage is refused.
unfoldable pub stage : SharedMemorySlot → ℕ
stage slot = slot.generation + (if slot.allocated then 0 else 1)

module _ {F : Type 0} where
  unfoldable pub Past : ℕ → ℕ → Memory F → Type 0
  unfolding stage
  Past i n m = (slot : SharedMemorySlot) → get_elem? m.slots i ≡ some slot → n ≤ stage slot

  -- The slot is written in a state with the slots of `m`, where frames and pages may have changed.
  pub with_slot-Past :
      (i n : ℕ)
      → (m after : Memory F) → after.slots ≡ m.slots
      → (j : ℕ) → (old new : SharedMemorySlot) → Past i n m
      → get_elem? m.slots j ≡ some old
      → stage old ≤ stage new
      → Past i n (with_slot after j new)
  unfolding Past with_slot
  with_slot-Past i n m after same j old new h at le slot e = ground (
    arith,
    get_elem?-set m.slots j i new,
    h old,
    h slot,
    ap (λ ss. get_elem? (set ss j new) i) same,
  )

  pub frames-Past :
      (i n : ℕ) → (m : Memory F) → (left : F) → Past i n m → Past i n (record m { frames = left })
  unfolding Past
  frames-Past i n m left h = h

  -- A free slot that is given out keeps its stage, with the next generation.
  pub given_out-Past :
      (i n : ℕ)
      → (m : Memory F) → (left : F) → (j frame owner generation : ℕ) → (old : SharedMemorySlot)
      → Past i n m
      → get_elem? m.slots j ≡ some old
      → not old.allocated ≡ true
      → checked_add u16_mod old.generation 1 ≡ some generation
      → Past i n (
          with_slot
            (write_page (record m { frames = left }) frame (replicate page_size 0))
            j
            (record {
              generation = generation;
              owner_pid = owner;
              frame = frame;
              length = 0;
              references = 1;
              allocated = true;
            }))
  unfolding write_page stage
  given_out-Past i n m left j frame owner generation old h at free sum =
      with_slot-Past i n m (write_page (record m { frames = left }) frame (replicate page_size 0))
        refl j old _ h at (ground arith)

  pub index-found :
      (m : Memory F)
      → (handle : SharedMemoryHandle) → {slot : SharedMemorySlot} → index m handle ≡ ok slot
      → (get_elem? m.slots handle.index ≡ some slot)
        × (slot.allocated ≡ true)
        × (slot.generation ≡ handle.generation)
  unfolding index is_handle
  index-found m handle e = elim (Option-cases (get_elem? m.slots handle.index)) [
    | inl missing ↦ ground arith
    | inr (old, at) ↦ ground arith
  ]

  pub Past-index :
      (m : Memory F)
      → (handle : SharedMemoryHandle) → Past handle.index (handle.generation + 1) m
      → index m handle ≡ err invalid_handle
  unfolding index is_handle Past stage
  Past-index m handle h = elim (Option-cases (get_elem? m.slots handle.index)) [
    | inl missing ↦ ground arith
    | inr (old, at) ↦ ground (arith, h old at)
  ]

  pub index-Past :
      (i n : ℕ)
      → (m after : Memory F) → after.slots ≡ m.slots
      → (handle : SharedMemoryHandle) → (slot new : SharedMemorySlot) → Past i n m
      → index m handle ≡ ok slot
      → slot.generation ≤ new.generation
      → Past i n (with_slot after handle.index new)
  unfolding stage
  index-Past i n m after same handle slot new h found le =
      with_slot-Past i n m after same handle.index slot new h (index-found m handle found).0
        (ground (arith, (index-found m handle found).1))

  pub truncate-Past :
      (i n : ℕ)
      → (m : Memory F) → (owner : ℕ) → (handle : SharedMemoryHandle) → (size : ℕ) → Past i n m
      → Past i n (truncate m owner handle size).1
  unfolding truncate
  truncate-Past i n m owner handle size h = elim (Result-cases (index m handle)) [
    | inl (slot, found) ↦ ground (
      arith,
      index-Past i n m m refl handle slot (record slot { length = size }) h found (omega arith),
    )
    | inr (e, refused) ↦ ground (arith, h)
  ]

  pub retain-Past :
      (i n : ℕ)
      → (m : Memory F) → (handle : SharedMemoryHandle) → Past i n m
      → Past i n (retain m handle).1
  unfolding retain
  retain-Past i n m handle h = elim (Result-cases (index m handle)) [
    | inl (slot, found) ↦ elim (Option-cases (checked_add u16_mod slot.references 1)) [
      | inl over ↦ ground (arith, h)
      | inr (references, sum) ↦ ground (
        arith,
        index-Past i n m m refl handle slot (record slot { references = references }) h found
            (omega arith),
      )
    ]
    | inr (e, refused) ↦ ground (arith, h)
  ]

  pub fill-Past :
      (i n : ℕ)
      → (m : Memory F) → (handle : SharedMemoryHandle) → (content : List ℕ) → Past i n m
      → Past i n (fill m handle content).1
  unfolding fill Past
  fill-Past i n m handle content h = elim (Result-cases (frame_and_length m handle)) [
    | inl (found, e) ↦ ground (arith, h)
    | inr (e, refused) ↦ ground (arith, h)
  ]
