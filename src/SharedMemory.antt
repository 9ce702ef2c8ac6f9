-- ===== src/SharedMemory.antt =====
-- kernel/src/shared_memory_service.rs: pages that processes share, with counts of the references.
pub mod Stages
pub mod Stale
pub mod Pages
pub mod Contents
use slopos.Base.{
  ℕ, ◌+◌, ◌-◌, ◌==◌, Bool, true, false, not, ◌&&◌, ◌||◌, List, [], ◌∷◌, length, get_elem?, set,
  take, drop, replicate, Option, some, none, Result, ok, err, ◌>>=◌, ◌>>◌, ok_or, ensure,
  if◌then◌else◌, leb, ltb, position, checked_add, checked_sub, u16_mod, contains, min, ◌++◌,
}

abbrev pub page_size : ℕ
page_size = 4096

abbrev pub object_capacity : ℕ
object_capacity = 4

pub record SharedMemoryHandle : Type 0 where
  pub index : ℕ
  pub generation : ℕ

pub data SharedMemoryError : Type 0 where
  table_full invalid_handle invalid_length permission_denied : SharedMemoryError
  counter_overflow frame_release : SharedMemoryError

pub record SharedMemorySlot : Type 0 where
  pub generation : ℕ
  pub owner_pid : ℕ
  pub frame : ℕ
  pub length : ℕ
  pub references : ℕ
  pub allocated : Bool

-- SharedMemorySlot::EMPTY, with a generation kept
abbrev pub empty_slot : ℕ → SharedMemorySlot
empty_slot generation = record {
  generation = generation;
  owner_pid = 0;
  frame = 0;
  length = 0;
  references = 0;
  allocated = false;
}

-- The kernel's frames: `allocate_frame` and `deallocate_frame`, on a state of their own. A frame that
-- is given back twice is refused with false.
pub record FrameAllocator (F : Type 0) : Type 0 where
  pub allocate_frame : F → Option ℕ × F
  pub deallocate_frame : F → ℕ → Bool × F

-- What the service works on: its table, the frames, and the pages that stand in them.
pub record Memory (F : Type 0) : Type 0 where
  pub slots : List SharedMemorySlot
  pub frames : F
  pub pages : ℕ → List ℕ

unfoldable pub is_handle : SharedMemoryHandle → SharedMemorySlot → Bool
is_handle handle slot = slot.allocated && (slot.generation == handle.generation)

module _ {F : Type 0} where
  -- SharedMemoryTable::index, with the slot that it leads to
  unfoldable pub index : Memory F → SharedMemoryHandle → Result SharedMemoryError SharedMemorySlot
  unfolding is_handle
  index m handle = elim (get_elem? m.slots handle.index) [
    | none ↦ err invalid_handle
    | some slot ↦ if is_handle handle slot then ok slot else err invalid_handle
  ]

  unfoldable pub with_slot : Memory F → ℕ → SharedMemorySlot → Memory F
  with_slot m i slot = record m { slots = set m.slots i slot }

  unfoldable pub write_page : Memory F → ℕ → List ℕ → Memory F
  write_page m frame page = record m { pages = λ f. if f == frame then page else m.pages f }

  unfoldable pub truncate :
      Memory F → ℕ → SharedMemoryHandle → ℕ → Result SharedMemoryError (Unit {0}) × Memory F
  unfolding index with_slot
  truncate m owner_pid handle size =
      if (size == 0) || ltb page_size size then (err invalid_length, m) else elim (index m handle) [
        | err e ↦ (err e, m)
        | ok slot ↦
            if not (slot.owner_pid == owner_pid)
            then (err permission_denied, m)
            else (ok tt, with_slot m handle.index (record slot { length = size }))
      ]

  unfoldable pub retain :
      Memory F → SharedMemoryHandle → Result SharedMemoryError (Unit {0}) × Memory F
  unfolding index with_slot
  retain m handle = elim (index m handle) [
    | err e ↦ (err e, m)
    | ok slot ↦ elim (checked_add u16_mod slot.references 1) [
      | none ↦ (err counter_overflow, m)
      | some references ↦
          (ok tt, with_slot m handle.index (record slot { references = references }))
    ]
  ]

  unfoldable pub frame_and_length : Memory F → SharedMemoryHandle → Result SharedMemoryError (ℕ × ℕ)
  unfolding index
  frame_and_length m handle = do
    slot ← index m handle
    ensure (not (slot.length == 0)) invalid_length
    ok (slot.frame, slot.length)

  unfoldable pub bytes : Memory F → SharedMemoryHandle → Result SharedMemoryError (List ℕ)
  unfolding frame_and_length
  bytes m handle = do found ← frame_and_length m handle; ok (take found.1 (m.pages found.0))

  -- The bytes that fill the front of an output of some size
  unfoldable pub read_at : Memory F → SharedMemoryHandle → ℕ → ℕ → Result SharedMemoryError (List ℕ)
  unfolding bytes
  read_at m handle offset output = do
    all ← bytes m handle
    ensure (leb offset (length all)) invalid_length
    ok (take (min output (length (drop offset all))) (drop offset all))

  -- The end of `create_initialized`, where the page is filled
  unfoldable pub fill :
      Memory F
      → SharedMemoryHandle
      → List ℕ
      → Result SharedMemoryError SharedMemoryHandle × Memory F
  unfolding frame_and_length write_page
  fill m handle content = elim (frame_and_length m handle) [
    | err e ↦ (err e, m)
    | ok found ↦
        (ok handle, write_page m found.0 (content ++ drop (length content) (m.pages found.0)))
  ]

module _ {F : Type 0} (allocator : FrameAllocator F) where
  -- A slot of the table, a generation and a frame are found in this order.
  unfoldable pub create : Memory F → ℕ → Result SharedMemoryError SharedMemoryHandle × Memory F
  unfolding position write_page with_slot
  create m owner_pid = elim (position (λ slot. not slot.allocated) m.slots) [
    | none ↦ (err table_full, m)
    | some i ↦ elim (get_elem? m.slots i) [
      | none ↦ (err table_full, m)
      | some old ↦ elim (checked_add u16_mod old.generation 1) [
        | none ↦ (err counter_overflow, m)
        | some generation ↦
            let after = record m { frames = (allocator.allocate_frame m.frames).1 } in
            elim (allocator.allocate_frame m.frames).0 [
              | none ↦ (err table_full, after)
              | some frame ↦ (
                ok (record { index = i; generation = generation }),
                with_slot (write_page after frame (replicate page_size 0)) i (record {
                  generation = generation;
                  owner_pid = owner_pid;
                  frame = frame;
                  length = 0;
                  references = 1;
                  allocated = true;
                }),
              )
            ]
      ]
    ]
  ]

  unfoldable pub release :
      Memory F → SharedMemoryHandle → Result SharedMemoryError (Unit {0}) × Memory F
  unfolding index with_slot
  release m handle = elim (index m handle) [
    | err e ↦ (err e, m)
    | ok slot ↦ elim (checked_sub slot.references 1) [
      | none ↦ (err invalid_handle, m)
      | some references ↦
          if not (references == 0)
          then (ok tt, with_slot m handle.index (record slot { references = references }))
          else (
            (if (allocator.deallocate_frame m.frames slot.frame).0
                then ok tt
                else err frame_release),
            with_slot (record m { frames = (allocator.deallocate_frame m.frames slot.frame).1 })
                handle.index (empty_slot slot.generation),
          )
    ]
  ]

  -- The length with the terminator cannot pass 2 ^ 64 where the bytes are in memory.
  unfoldable pub create_initialized :
      Memory F → ℕ → List ℕ → Bool → Result SharedMemoryError SharedMemoryHandle × Memory F
  unfolding create truncate release fill
  create_initialized m owner_pid content nul_terminated =
      let size = if nul_terminated then length content + 1 else length content in
      if (length content == 0) || (ltb page_size size || (nul_terminated && contains content 0))
      then (err invalid_length, m)
      else elim (create m owner_pid).0 [
        | err e ↦ (err e, (create m owner_pid).1)
        | ok handle ↦
            let sized = truncate (create m owner_pid).1 owner_pid handle size in
            elim sized.0 [
              | err e ↦ (err e, (release sized.1 handle).1)
              | ok done ↦ fill sized.1 handle content
            ]
      ]
