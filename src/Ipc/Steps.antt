-- ===== src/Ipc/Steps.antt =====
-- Rewrites of one or two slots of the socket table, for the calls and their invariant.
pub mod Setup
pub mod Transfers
pub mod Connecting
use slopos.Base.{
  ℕ, zero, suc, ◌+◌, ◌-◌, ◌≤◌, ◌<◌, ◌≡◌, ◌≢◌, refl, true, false, not, Bool, Option, some, none,
  List, [], ◌∷◌, get_elem?, set, arith, inl, inr, Option-cases, Bool-cases, Result-cases, Result,
  ok, err, get_elem?-set, get_elem?_bound, if◌then◌else◌, ◌==◌, ◌&&◌, ◌||◌, find, find-get_elem?,
  keep_if, ok_or, ensure, checked_add, u16_mod, length, ltb, any, leb, ◌⊎◌,
}
use slopos.Ipc.Sockets.{
  SocketHandle, SocketError, SocketSlot, LocalSocketTable, AncillaryRights, is_connected, is_free,
  is_created, is_bound, is_listening, has_path, write, slot_mut, slot_at, handle, kept, socket,
  bind, listen, empty_slot, allocated, validate_path, listening,
}
use slopos.Ipc.Ring.{ByteRing, push, pop, empty_ring, available}
use slopos.Ipc.Ring.Queue.{push-Pushed, pop-Popped}
use slopos.Ipc.Ring.Queue
use slopos.Ipc.Connections.{
  Ends, find_ends, find_from, is_other_free, link, enqueue, connect, dequeue, accept, hang_up,
  close,
}
use slopos.Ipc.Streams.{
  receiver, filled, send, send_exact, send_with_rights, recv, recv_with_rights, take_rights,
  emptied, has_rights, is_starved, delivered, after_delivery,
}

-- A call keeps the ring of a slot valid, in a table whose rings hold a byte at least.
pub record KeepsRing (t : LocalSocketTable) (old new : SocketSlot) : Type 0 where
  pub ring : 1 ≤ t.bytes → Queue.IsValid old.receive → Queue.IsValid new.receive

pub data Step (t : LocalSocketTable) : LocalSocketTable → Type 0 where
  same : Step t t
  -- The slot keeps its connection.
  rewrites :
      (i : ℕ) (old new : SocketSlot)
      → get_elem? t.slots i ≡ some old
      → is_connected new ≡ is_connected old
      → new.peer ≡ old.peer
      → KeepsRing t old new
      → Step t (write t i new)
  -- A slot without a peer gets none.
  drops :
      (i : ℕ) (old new : SocketSlot)
      → get_elem? t.slots i ≡ some old
      → (is_connected old ≡ false) ⊎ (old.peer ≡ none)
      → new.peer ≡ none
      → KeepsRing t old new
      → Step t (write t i new)
  -- Two slots that are not connected become the ends of a connection.
  links :
      (i k : ℕ) (a b new_a new_b : SocketSlot)
      → get_elem? t.slots i ≡ some a
      → get_elem? t.slots k ≡ some b
      → i ≢ k
      → is_connected a ≡ false
      → is_connected b ≡ false
      → new_a.peer ≡ some k
      → new_b.peer ≡ some i
      → is_connected new_a ≡ true
      → is_connected new_b ≡ true
      → KeepsRing t a new_a
      → KeepsRing t b new_b
      → Step t (write (write t i new_a) k new_b)
  -- The two ends of a connection lose their peers.
  cuts :
      (i k : ℕ) (a b new_a new_b : SocketSlot)
      → get_elem? t.slots i ≡ some a
      → get_elem? t.slots k ≡ some b
      → i ≢ k
      → a.peer ≡ some k
      → b.peer ≡ some i
      → new_a.peer ≡ none
      → new_b.peer ≡ none
      → KeepsRing t a new_a
      → KeepsRing t b new_b
      → Step t (write (write t i new_a) k new_b)

pub data Steps (t : LocalSocketTable) : LocalSocketTable → Type 0 where
  one : (t' : LocalSocketTable) → Step t t' → Steps t t'
  two : (t' t'' : LocalSocketTable) → Step t t' → Step t' t'' → Steps t t''

pub slot_mut_found :
    (t : LocalSocketTable) (h : SocketHandle) (i : ℕ) (s : SocketSlot)
    → slot_mut t h ≡ ok (i, s)
    → (get_elem? t.slots i ≡ some s)
      × (is_free s ≡ false)
      × (i ≡ h.index)
      × (s.generation ≡ h.generation)
unfolding slot_mut
slot_mut_found t h i s e = elim (Option-cases (get_elem? t.slots h.index)) [
  | inl f ↦ absurd (ground arith)
  | inr (x, f) ↦ (ground arith, ground arith, ground arith, ground arith)
]
