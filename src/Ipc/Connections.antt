-- ===== src/Ipc/Connections.antt =====
-- crates/ipc/src/lib.rs: `connect`, `accept`, `peer` and `close` of `LocalSocketTable`.
use slopos.Base.{
  ℕ, ◌+◌, ◌-◌, ◌%◌, ◌==◌, ◌&&◌, not, Bool, true, List, [], ◌∷◌, set, get_elem?, Option, some, none,
  Result, ok, ◌>>=◌, ◌>>◌, ensure, ok_or, find, checked_add, u16_mod, suc, if◌then◌else◌,
}
use slopos.Ipc.Sockets.{
  SocketHandle, SocketError, address_not_found, invalid_state, backlog_full, table_full,
  counter_overflow, would_block, broken_pipe, connected, SocketSlot, LocalSocketTable, empty_slot,
  is_free, is_created, is_listening, is_connected, has_path, slot_at, write, slot_mut, handle,
  validate_path, allocated, kept,
}

-- `iter().enumerate().find(…)`: the first entry of which the test holds, counted from a number.
unfoldable pub find_from {ℓ} : {A : Type ℓ} → (ℕ → A → Bool) → ℕ → List A → Option (ℕ × A)
find_from p i [] = none
find_from p i (x ∷ xs) = let rest = find_from p (suc i) xs in if p i x then some (i, x) else rest

abbrev pub is_other_free : ℕ → ℕ → ℕ → SocketSlot → Bool
is_other_free client listener i s = not (i == client) && (not (i == listener) && is_free s)

-- The two ends of a connection, linked.
unfoldable pub link : LocalSocketTable → ℕ → SocketSlot → ℕ → ℕ → LocalSocketTable
unfolding empty_slot
link t client c server generation =
    write
      (write t server (record (allocated t generation) { state = connected; peer = some client }))
      client (record c { state = connected; peer = some server })

-- The server's end joins the queue of the listener.
unfoldable pub enqueue : ℕ → SocketSlot → ℕ → SocketSlot
enqueue backlog l server = record l {
  pending = set l.pending ((l.pending_head + l.pending_length) % backlog) (some server);
  pending_length = l.pending_length + 1;
}

-- The slots that a `connect` is about, with their places, and the generation of the new end.
pub record Ends : Type 0 where
  pub client : ℕ × SocketSlot
  pub listener : ℕ × SocketSlot
  pub server : ℕ × SocketSlot
  pub generation : ℕ

-- The checks of `connect`.
unfoldable pub find_ends : LocalSocketTable → SocketHandle → List ℕ → Result SocketError Ends
unfolding validate_path slot_mut find_from
find_ends t h path = do
  validate_path path
  client ← slot_mut t h
  ensure (is_created client.1) invalid_state
  listener ← ok_or (find (λ s. is_listening s && has_path path s) t.slots) address_not_found
  ensure (not (listener.1.pending_length == t.backlog)) backlog_full
  server ← ok_or (find_from (is_other_free client.0 listener.0) 0 t.slots) table_full
  generation ← ok_or (checked_add u16_mod server.1.generation 1) counter_overflow
  ok (record { client = client; listener = listener; server = server; generation = generation })

unfoldable pub connect :
    LocalSocketTable → SocketHandle → List ℕ → Result SocketError (Unit {0}) × LocalSocketTable
unfolding find_ends link enqueue
connect t h path = kept t (do
  e ← find_ends t h path
  ok (
    tt,
    write (link t e.client.0 e.client.1 e.server.0 e.generation) e.listener.0
        (enqueue t.backlog e.listener.1 e.server.0),
  ))

-- `pending[pending_head].take()` and the two counters behind it.
unfoldable pub dequeue : ℕ → SocketSlot → SocketSlot
dequeue backlog l = record l {
  pending = set l.pending l.pending_head none;
  pending_head = (l.pending_head + 1) % backlog;
  pending_length = l.pending_length - 1;
}

abbrev pub joined {ℓ} : {A : Type ℓ} → Option (Option A) → Option A
joined none = none
joined (some o) = o

unfoldable pub accept :
    LocalSocketTable → SocketHandle → Result SocketError SocketHandle × LocalSocketTable
unfolding slot_mut dequeue slot_at handle
accept t h = kept t (do
  found ← slot_mut t h
  ensure (is_listening found.1) invalid_state
  ensure (not (found.1.pending_length == 0)) would_block
  server ← ok_or (joined (get_elem? found.1.pending found.1.pending_head)) invalid_state
  s ← slot_at (write t found.0 (dequeue t.backlog found.1)) server
  answer ← handle s server
  ok (answer, write t found.0 (dequeue t.backlog found.1)))

unfoldable pub pending_connections : LocalSocketTable → SocketHandle → Result SocketError ℕ
unfolding slot_mut
pending_connections t h = do
  found ← slot_mut t h
  ensure (is_listening found.1) invalid_state
  ok found.1.pending_length

unfoldable pub peer : LocalSocketTable → SocketHandle → Result SocketError SocketHandle
unfolding slot_mut slot_at handle
peer t h = do
  found ← slot_mut t h
  ensure (is_connected found.1 && not found.1.peer_closed) invalid_state
  p ← ok_or found.1.peer broken_pipe
  s ← slot_at t p
  handle s p

-- The other end of a connection that is closed.
unfoldable pub hang_up : LocalSocketTable → Option ℕ → LocalSocketTable
hang_up t none = t
hang_up t (some p) = elim (get_elem? t.slots p) [
  | none ↦ t
  | some s ↦ if is_connected s then write t p (record s { peer = none; peer_closed = true }) else t
]

unfoldable pub close :
    LocalSocketTable → SocketHandle → Result SocketError (Unit {0}) × LocalSocketTable
unfolding slot_mut hang_up empty_slot
close t h = kept t (do
  found ← slot_mut t h
  ok (tt, write (hang_up t found.1.peer) found.0 (empty_slot t found.1.generation)))
