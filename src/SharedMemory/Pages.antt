-- ===== src/SharedMemory/Pages.antt =====
-- kernel/src/shared_memory_service.rs: what is written to a page, and read of it by a handle.
use slopos.Base.{
  ℕ, ◌+◌, ◌≤◌, ◌<◌, ◌≡◌, true, List, [], ◌∷◌, ok, arith, get_elem?-set, get_elem?_bound, ap, refl,
  length, take, drop, replicate, ◌++◌, ◌∙◌, zero, suc,
}
use slopos.SharedMemory.{
  Memory, SharedMemoryHandle, SharedMemorySlot, index, is_handle, with_slot, fill, write_page,
  frame_and_length, bytes, page_size,
}
use slopos.SharedMemory.Stages.{index-found}

take-replicate : (k n : ℕ) → k ≤ n → take {A = ℕ} k (replicate n 0) ≡ replicate k 0
take-replicate zero n h = refl
take-replicate (suc k) zero h = absurd (omega arith)
take-replicate (suc k) (suc n) h = ap (◌∷◌ 0) (take-replicate k n (omega arith))

-- A blank page of `n` bytes whose front is written
take-append-drop :
    (content : List ℕ) (k n : ℕ)
    → length content + k ≤ n
    → take (length content + k) (content ++ drop (length content) (replicate n 0))
      ≡ content ++ replicate k 0
take-append-drop [] k n h =
    ap (λ j. take j (replicate n 0)) (omega arith) ∙ take-replicate k n (omega arith)
take-append-drop (x ∷ xs) k zero h = absurd (omega arith)
take-append-drop (x ∷ xs) k (suc n) h =
    let sum : suc (length xs) + k ≡ suc (length xs + k) = omega arith in
    ap (λ j. take j (x ∷ (xs ++ drop (length xs) (replicate n 0)))) sum
    ∙ ap (◌∷◌ x) (take-append-drop xs k n (omega arith))

module _ {F : Type 0} where
  pub index-with_slot :
      (m : Memory F)
      → (handle : SharedMemoryHandle) → (slot new : SharedMemorySlot) → index m handle ≡ ok slot
      → new.allocated ≡ true
      → new.generation ≡ handle.generation
      → index (with_slot m handle.index new) handle ≡ ok new
  unfolding index with_slot is_handle
  index-with_slot m handle slot new found taken same = ground (
    arith,
    get_elem?-set m.slots handle.index handle.index new,
    get_elem?_bound m.slots handle.index (index-found m handle found).0,
  )

  index-write_page :
      (m : Memory F) (frame : ℕ) (page : List ℕ) (handle : SharedMemoryHandle)
      → index (write_page m frame page) handle ≡ index m handle
  unfolding index write_page
  index-write_page m frame page handle = refl

  pub pages-with_slot :
      (m : Memory F) (j : ℕ) (slot : SharedMemorySlot) → (with_slot m j slot).pages ≡ m.pages
  unfolding with_slot
  pages-with_slot m j slot = refl

  frame_and_length-index :
      (m : Memory F) (handle : SharedMemoryHandle) (slot : SharedMemorySlot)
      → index m handle ≡ ok slot
      → 0 < slot.length
      → frame_and_length m handle ≡ ok (slot.frame, slot.length)
  unfolding frame_and_length
  frame_and_length-index m handle slot found low = ground (arith, found)

  bytes-index :
      (m : Memory F) (handle : SharedMemoryHandle) (slot : SharedMemorySlot)
      → index m handle ≡ ok slot
      → 0 < slot.length
      → bytes m handle ≡ ok (take slot.length (m.pages slot.frame))
  unfolding bytes
  bytes-index m handle slot found low =
      ground (arith, frame_and_length-index m handle slot found low)

  written-bytes :
      (m : Memory F) (handle : SharedMemoryHandle) (slot : SharedMemorySlot) (page : List ℕ)
      → index m handle ≡ ok slot
      → 0 < slot.length
      → bytes (write_page m slot.frame page) handle ≡ ok (take slot.length page)
  unfolding write_page
  written-bytes m handle slot page found low = ground (
    arith,
    bytes-index (write_page m slot.frame page) handle slot
        (index-write_page m slot.frame page handle ∙ found) low,
  )

  -- The state that `fill` leaves, and what is read of the page there
  pub fill-bytes :
      (m : Memory F) (handle : SharedMemoryHandle) (slot : SharedMemorySlot) (content : List ℕ)
      (k : ℕ)
      → index m handle ≡ ok slot
      → 0 < slot.length
      → slot.length ≡ length content + k
      → slot.length ≤ page_size
      → m.pages slot.frame ≡ replicate page_size 0
      → ((fill m handle content).0 ≡ ok handle)
        × (bytes (fill m handle content).1 handle ≡ ok (content ++ replicate k 0))
  unfolding fill
  fill-bytes m handle slot content k found low size high blank =
      let page : List ℕ = content ++ drop (length content) (m.pages slot.frame) in
      let filled : fill m handle content ≡ (ok handle, write_page m slot.frame page) =
        ground (arith, frame_and_length-index m handle slot found low) in
      let read : bytes (write_page m slot.frame page) handle ≡ ok (take slot.length page) =
        written-bytes m handle slot page found low in
      (
        ap (λ p. p.0) filled,
        ap (λ p. bytes p.1 handle) filled
            ∙ read
            ∙ ap ok (rw (blank, size) (take-append-drop content k page_size (omega arith))),
      )
