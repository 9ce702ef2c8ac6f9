-- ===== src/SharedMemory/Contents.antt =====
-- kernel/src/shared_memory_service.rs: what a page that is created with contents holds.
use slopos.Base.{
  ℕ, ◌+◌, ◌≤◌, ◌<◌, ◌≡◌, Bool, true, false, not, List, ok, position, checked_add, u16_mod,
  if◌then◌else◌, Option-cases, inl, inr, arith, get_elem?-set, get_elem?_bound, position-FirstAt,
  ap, refl, length, replicate, ◌++◌, ◌&&◌, ◌∙◌, contains,
}
use slopos.SharedMemory.{
  Memory, SharedMemoryHandle, SharedMemorySlot, FrameAllocator, index, is_handle, with_slot,
  truncate, create, create_initialized, fill, write_page, bytes, page_size,
}
use slopos.SharedMemory.Pages.{index-with_slot, pages-with_slot, fill-bytes}

-- The slot that a handle of a new object leads to
abbrev new_slot : SharedMemoryHandle → ℕ → ℕ → ℕ → SharedMemorySlot
new_slot handle owner frame size = record {
  generation = handle.generation;
  owner_pid = owner;
  frame = frame;
  length = size;
  references = 1;
  allocated = true;
}

abbrev terminators : Bool → ℕ
terminators nul = if nul then 1 else 0

module _ {F : Type 0} where
  record Created (owner : ℕ) (handle : SharedMemoryHandle) (made : Memory F) : Type 0 where
    frame : ℕ
    found : index made handle ≡ ok (new_slot handle owner frame 0)
    blank : made.pages frame ≡ replicate page_size 0

  module _ (allocator : FrameAllocator F) where
    abbrev given_out : Memory F → F → ℕ → ℕ → ℕ → ℕ → Memory F
    given_out m left j frame owner generation =
        with_slot (write_page (record m { frames = left }) frame (replicate page_size 0)) j
          (new_slot (record { index = j; generation = generation }) owner frame 0)

    given_out-Created :
        (m : Memory F)
        → (left : F) → (j frame owner generation : ℕ) → j < length m.slots
        → Created owner
            (record { index = j; generation = generation })
            (given_out m left j frame owner generation)
    unfolding index is_handle with_slot write_page
    given_out-Created m left j frame owner generation within = record {
      frame = frame;
      found = ground (
        arith,
        get_elem?-set m.slots j j
            (new_slot (record { index = j; generation = generation }) owner frame 0),
      );
      blank = ground arith;
    }

    given_out_at-Created :
        (m : Memory F) (owner : ℕ) (handle : SharedMemoryHandle)
        → (left : F) → (j frame generation : ℕ) → j < length m.slots
        → (create allocator m owner).0 ≡ ok handle
        → create allocator m owner ≡ (
          ok (record { index = j; generation = generation }),
          given_out m left j frame owner generation,
        )
        → Created owner handle (create allocator m owner).1
    given_out_at-Created m owner handle left j frame generation within made result =
        let same : handle ≡ record { index = j; generation = generation } =
          ground (arith, ap (λ p. p.0) result) in
        rw (same, result) (given_out-Created m left j frame owner generation within)

    create-Created :
        (m : Memory F) (owner : ℕ) (handle : SharedMemoryHandle)
        → (create allocator m owner).0 ≡ ok handle
        → Created owner handle (create allocator m owner).1
    unfolding create
    create-Created m owner handle made =
        elim (Option-cases (position (λ slot. not slot.allocated) m.slots)) [
          | inl full ↦ absurd (ground arith)
          | inr (j, spare) ↦
              let first = position-FirstAt (λ slot. not slot.allocated) m.slots j spare in
              elim (Option-cases (checked_add u16_mod first.value.generation 1)) [
                | inl over ↦ absurd (ground (arith, first.found))
                | inr (generation, sum) ↦
                    elim (Option-cases (allocator.allocate_frame m.frames).0) [
                      | inl none_left ↦ absurd (ground (arith, first.found))
                      | inr (frame, given) ↦
                          given_out_at-Created m owner handle (allocator.allocate_frame m.frames).1
                            j frame generation (get_elem?_bound m.slots j first.found) made
                            (ground (arith, first.found))
                    ]
              ]
        ]

    truncate-sized :
        (m : Memory F) (owner : ℕ) (handle : SharedMemoryHandle) (size : ℕ)
        → (c : Created owner handle m) → 0 < size
        → size ≤ page_size
        → truncate m owner handle size
          ≡ (ok tt, with_slot m handle.index (new_slot handle owner c.frame size))
    unfolding truncate
    truncate-sized m owner handle size c low high = ground (arith, c.found)

    sized_fill :
        (m : Memory F) (owner : ℕ) (content : List ℕ) (nul : Bool) (handle : SharedMemoryHandle)
        → (state : Memory F) → 0 < length content
        → length content + terminators nul ≤ page_size
        → nul && contains content 0 ≡ false
        → (create allocator m owner).0 ≡ ok handle
        → truncate (create allocator m owner).1 owner handle (length content + terminators nul)
          ≡ (ok tt, state)
        → create_initialized allocator m owner content nul ≡ fill state handle content
    unfolding create_initialized
    sized_fill m owner content true handle state low fits clean made cut = ground (arith, made, cut)
    sized_fill m owner content false handle state low fits clean made cut =
        ground (arith, made, cut)

    -- Where `create` gives a handle, `create_initialized` on bytes that are not empty, that fit a
    -- page with their terminator and that hold no zero where one is asked for succeeds with the
    -- same handle, and `bytes` then reads the bytes and the terminator.
    pub create_initialized-bytes :
        (m : Memory F) (owner : ℕ) (content : List ℕ) (nul : Bool) (handle : SharedMemoryHandle)
        → (create allocator m owner).0 ≡ ok handle
        → 0 < length content
        → length content + terminators nul ≤ page_size
        → nul && contains content 0 ≡ false
        → ((create_initialized allocator m owner content nul).0 ≡ ok handle)
          × (bytes (create_initialized allocator m owner content nul).1 handle
              ≡ ok (content ++ replicate (terminators nul) 0))
    unfolding create_initialized
    create_initialized-bytes m owner content nul handle made some_bytes fits clean =
        let c = create-Created m owner handle made in
        let size : ℕ = length content + terminators nul in
        let state : Memory F =
          with_slot (create allocator m owner).1 handle.index
            (new_slot handle owner c.frame size) in
        let cut =
          truncate-sized (create allocator m owner).1 owner handle size c (omega arith) fits in
        let reached : create_initialized allocator m owner content nul ≡ fill state handle content =
          sized_fill m owner content nul handle state some_bytes fits clean made cut in
        rw reached (
          fill-bytes state handle (new_slot handle owner c.frame size) content (terminators nul)
            (index-with_slot (create allocator m owner).1 handle (new_slot handle owner c.frame 0)
              (new_slot handle owner c.frame size) c.found refl refl)
            (omega arith) refl fits
            (ap (λ pages. pages c.frame)
                (pages-with_slot (create allocator m owner).1 handle.index
                  (new_slot handle owner c.frame size))
              ∙ c.blank))
