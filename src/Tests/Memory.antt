-- ===== src/Tests/Memory.antt =====
-- kernel/src/shared_memory_service.rs: one page, created with contents, released and asked for again.
use slopos.SharedMemory.{
  FrameAllocator, Memory, SharedMemoryHandle, SharedMemorySlot, empty_slot, create_initialized,
  object_capacity, invalid_handle, release, create, bytes, index,
}
use slopos.Base.{List, [], ◌∷◌, some, none, ok, err, refl, true, replicate, position, arith, ◌≡◌, ℕ}
use slopos.SharedMemory.Stale.{release-perform_all, perform_all, truncates, creates, Call}
use slopos.SharedMemory.Contents.{create_initialized-bytes}

-- A list of free frames, on which a frame that is given back comes first.
abbrev free_list : FrameAllocator (List ℕ)
free_list = record {
  allocate_frame = λ free. elim free [ [] ↦ (none, []) | f ∷ rest ↦ (some f, rest) ];
  deallocate_frame = λ free frame. (true, frame ∷ free);
}

abbrev blank : Memory (List ℕ)
blank = record {
  slots = replicate object_capacity (empty_slot 0);
  frames = 4096 ∷ 8192 ∷ [];
  pages = λ f. [];
}

abbrev first : SharedMemoryHandle
first = record { index = 0; generation = 1 }

abbrev greeting : List ℕ
greeting = 104 ∷ 105 ∷ []

created : (create free_list blank 7).0 ≡ ok first
unfolding create position
created = refl

create_initialized-bytes_example :
    ((create_initialized free_list blank 7 greeting true).0 ≡ ok first)
    × (bytes (create_initialized free_list blank 7 greeting true).1 first ≡ ok (104 ∷ 105 ∷ 0 ∷ []))
create_initialized-bytes_example =
    create_initialized-bytes free_list blank 7 greeting true first created (omega arith)
      (omega arith) refl

-- Another object in the first's place
abbrev later_calls : List Call
later_calls = creates 8 ∷ truncates 8 (record { index = 0; generation = 2 }) 16 ∷ []

abbrev first_slot : SharedMemorySlot
first_slot = record {
  generation = 1;
  owner_pid = 7;
  frame = 4096;
  length = 0;
  references = 1;
  allocated = true;
}

first_found : index (create free_list blank 7).1 first ≡ ok first_slot
unfolding index create position
first_found = refl

release-perform_all_example :
    index
      (perform_all free_list (release free_list (create free_list blank 7).1 first).1 later_calls)
      first
    ≡ err invalid_handle
release-perform_all_example =
    release-perform_all free_list (create free_list blank 7).1 first first_slot later_calls
      first_found refl
