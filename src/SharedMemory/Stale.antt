-- ===== src/SharedMemory/Stale.antt =====
-- kernel/src/shared_memory_service.rs: a handle whose object is gone stays refused.
use slopos.Base.{
  ℕ, ◌+◌, ◌≡◌, Bool, not, List, [], ◌∷◌, ok, err, position, checked_add, checked_sub, u16_mod,
  if◌then◌else◌, Option-cases, Result-cases, refl, length, inl, inr, arith, get_elem?-set,
  position-FirstAt,
}
use slopos.SharedMemory.{
  Memory, SharedMemoryHandle, SharedMemorySlot, FrameAllocator, index, with_slot, truncate, retain,
  release, create, create_initialized, empty_slot, invalid_handle,
}
use slopos.SharedMemory.Stages.{
  stage, Past, frames-Past, given_out-Past, index-found, Past-index, index-Past, truncate-Past,
  retain-Past, fill-Past,
}

-- What a caller of the service asks for
pub data Call : Type 0 where
  creates : ℕ → Call
  initializes : ℕ → List ℕ → Bool → Call
  truncates : ℕ → SharedMemoryHandle → ℕ → Call
  retains : SharedMemoryHandle → Call
  releases : SharedMemoryHandle → Call

module _ {F : Type 0} where
  module _ (allocator : FrameAllocator F) where
    create-Past :
        (i n : ℕ)
        → (m : Memory F) → (owner : ℕ) → Past i n m
        → Past i n (create allocator m owner).1
    unfolding create
    create-Past i n m owner h =
        elim (Option-cases (position (λ slot. not slot.allocated) m.slots)) [
          | inl full ↦ ground (arith, h)
          | inr (j, spare) ↦
              let first = position-FirstAt (λ slot. not slot.allocated) m.slots j spare in
              elim (Option-cases (checked_add u16_mod first.value.generation 1)) [
                | inl over ↦ ground (arith, h, first.found)
                | inr (generation, sum) ↦
                    elim (Option-cases (allocator.allocate_frame m.frames).0) [
                      | inl none_left ↦ ground (
                        arith,
                        first.found,
                        frames-Past i n m (allocator.allocate_frame m.frames).1 h,
                      )
                      | inr (frame, given) ↦ ground (
                        arith,
                        first.found,
                        given_out-Past i n m (allocator.allocate_frame m.frames).1 j frame owner
                            generation first.value h first.found first.holds sum,
                      )
                    ]
              ]
        ]

    release-Past :
        (i n : ℕ)
        → (m : Memory F) → (handle : SharedMemoryHandle) → Past i n m
        → Past i n (release allocator m handle).1
    unfolding release
    release-Past i n m handle h = elim (Result-cases (index m handle)) [
      | inl (slot, found) ↦ elim (Option-cases (checked_sub slot.references 1)) [
        | inl under ↦ ground (arith, h)
        | inr (references, difference) ↦ ground (
          arith,
          index-Past i n m m refl handle slot (record slot { references = references }) h found
              (omega arith),
          index-Past i n m
              (record m { frames = (allocator.deallocate_frame m.frames slot.frame).1 }) refl handle
              slot (empty_slot slot.generation) h found (omega arith),
        )
      ]
      | inr (e, refused) ↦ ground (arith, h)
    ]

    create_initialized-Past :
        (i n : ℕ)
        → (m : Memory F) → (owner : ℕ) → (content : List ℕ) → (nul : Bool) → Past i n m
        → Past i n (create_initialized allocator m owner content nul).1
    unfolding create_initialized
    create_initialized-Past i n m owner content nul h =
        elim (Result-cases (create allocator m owner).0) [
          | inl (handle, made) ↦
              let sized = (if nul then length content + 1 else length content) in
              elim (Result-cases (truncate (create allocator m owner).1 owner handle sized).0) [
                | inl (done, cut) ↦ ground (
                  arith,
                  h,
                  fill-Past i n (truncate (create allocator m owner).1 owner handle sized).1 handle
                      content
                      (truncate-Past i n (create allocator m owner).1 owner handle sized
                        (create-Past i n m owner h)),
                )
                | inr (e, uncut) ↦ ground (
                  arith,
                  h,
                  release-Past i n (truncate (create allocator m owner).1 owner handle sized).1
                      handle
                      (truncate-Past i n (create allocator m owner).1 owner handle sized
                        (create-Past i n m owner h)),
                )
              ]
          | inr (e, unmade) ↦ ground (arith, h, create-Past i n m owner h)
        ]

    unfoldable pub perform : Memory F → Call → Memory F
    unfolding create create_initialized truncate retain release
    perform m (creates owner) = (create allocator m owner).1
    perform m (initializes owner content nul) = (create_initialized allocator m owner content nul).1
    perform m (truncates owner handle size) = (truncate m owner handle size).1
    perform m (retains handle) = (retain m handle).1
    perform m (releases handle) = (release allocator m handle).1

    unfoldable pub perform_all : Memory F → List Call → Memory F
    unfolding perform
    perform_all m [] = m
    perform_all m (c ∷ cs) = perform_all (perform m c) cs

    perform-Past : (i n : ℕ) → (m : Memory F) → (c : Call) → Past i n m → Past i n (perform m c)
    unfolding perform
    perform-Past i n m (creates owner) h = create-Past i n m owner h
    perform-Past i n m (initializes owner content nul) h =
        create_initialized-Past i n m owner content nul h
    perform-Past i n m (truncates owner handle size) h = truncate-Past i n m owner handle size h
    perform-Past i n m (retains handle) h = retain-Past i n m handle h
    perform-Past i n m (releases handle) h = release-Past i n m handle h

    perform_all-Past :
        (i n : ℕ) → (m : Memory F) → (cs : List Call) → Past i n m → Past i n (perform_all m cs)
    unfolding perform_all
    perform_all-Past i n m [] h = h
    perform_all-Past i n m (c ∷ cs) h =
        perform_all-Past i n (perform m c) cs (perform-Past i n m c h)

    release_last-Past :
        (m : Memory F)
        → (handle : SharedMemoryHandle) → (slot : SharedMemorySlot) → index m handle ≡ ok slot
        → slot.references ≡ 1
        → Past handle.index (handle.generation + 1) (release allocator m handle).1
    unfolding release Past with_slot stage
    release_last-Past m handle slot found last freed e =
        let (at, taken, same) = index-found m handle found in
        ground (
          arith,
          get_elem?-set m.slots handle.index handle.index (empty_slot slot.generation),
          last,
          found,
          same,
        )

    -- Once `release` has taken the last reference of a handle, no sequence of calls of the service
    -- (`create`, `create_initialized`, `truncate`, `retain`, `release`, with any arguments) makes
    -- the handle valid again: it stays refused with InvalidHandle.
    pub release-perform_all :
        (m : Memory F)
        → (handle : SharedMemoryHandle) → (slot : SharedMemorySlot) → (cs : List Call)
        → index m handle ≡ ok slot
        → slot.references ≡ 1
        → index (perform_all (release allocator m handle).1 cs) handle ≡ err invalid_handle
    release-perform_all m handle slot cs found last =
        Past-index (perform_all (release allocator m handle).1 cs) handle (
          perform_all-Past handle.index (handle.generation + 1) (release allocator m handle).1 cs
            (release_last-Past m handle slot found last))
