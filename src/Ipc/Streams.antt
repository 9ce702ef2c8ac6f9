-- ===== src/Ipc/Streams.antt =====
-- crates/ipc/src/lib.rs: bytes and rights through a connection of `LocalSocketTable`.
use slopos.Base.{
  ℕ, ◌==◌, ◌&&◌, ◌||◌, not, Bool, true, false, List, length, get_elem?, Option, some, none, Result,
  ok, ◌>>=◌, ◌>>◌, ensure, ok_or, leb, if◌then◌else◌,
}
use slopos.Ipc.Ring.{available, push, pop}
use slopos.Ipc.Sockets.{
  SocketHandle, AncillaryRights, SocketError, invalid_state, would_block, broken_pipe, SocketSlot,
  LocalSocketTable, is_connected, slot_at, write, slot_mut, kept,
}

-- The other end that a send writes to, with its place.
unfoldable pub receiver :
    LocalSocketTable → SocketHandle → Bool → Result SocketError (ℕ × SocketSlot)
unfolding slot_mut slot_at
receiver t h sends = do
  found ← slot_mut t h
  ensure (is_connected found.1 && sends) invalid_state
  p ← ok_or found.1.peer broken_pipe
  s ← slot_at t p
  ensure (not found.1.peer_closed && is_connected s) broken_pipe
  ok (p, s)

-- The receive ring of a slot after a push.
abbrev pub filled : SocketSlot → List ℕ → SocketSlot
filled s input = record s { receive = (push s.receive input).1 }

unfoldable pub send :
    LocalSocketTable → SocketHandle → List ℕ → Result SocketError ℕ × LocalSocketTable
unfolding receiver push
send t h input = kept t (do
  to ← receiver t h true
  ensure (not ((push to.1.receive input).0 == 0 && not (length input == 0))) would_block
  ok ((push to.1.receive input).0, write t to.0 (filled to.1 input)))

unfoldable pub send_exact :
    LocalSocketTable → SocketHandle → List ℕ → Result SocketError ℕ × LocalSocketTable
unfolding receiver push available
send_exact t h input = kept t (do
  to ← receiver t h true
  ensure (leb (length input) (available to.1.receive)) would_block
  ok ((push to.1.receive input).0, write t to.0 (filled to.1 input)))

abbrev pub has_rights : SocketSlot → Bool
has_rights s = elim s.rights [ none ↦ false | some r ↦ true ]

unfoldable pub send_with_rights :
    LocalSocketTable
    → SocketHandle
    → List ℕ
    → AncillaryRights
    → Result SocketError ℕ × LocalSocketTable
unfolding receiver push available
send_with_rights t h input rights = kept t (do
  to ← receiver t h (not (length input == 0))
  ensure
      (not (
        has_rights to.1
        || (not (to.1.receive.length == 0) || not (leb (length input) (available to.1.receive)))))
      would_block
  ensure ((push to.1.receive input).0 == length input) would_block
  ok (
    (push to.1.receive input).0,
    write t to.0 (record (filled to.1 input) { rights = some rights }),
  ))

abbrev pub emptied : SocketSlot → ℕ → SocketSlot
emptied s size = record s { receive = (pop s.receive size).1 }

-- `count == 0 && !output.is_empty() && !slot.peer_closed`
abbrev pub is_starved : SocketSlot → ℕ → Bool
is_starved s size = length (pop s.receive size).0 == 0 && (not (size == 0) && not s.peer_closed)

-- The bytes that `recv` reads into an output of a given size. A pop of no bytes moves the head by 0.
unfoldable pub recv :
    LocalSocketTable → SocketHandle → ℕ → Result SocketError (List ℕ) × LocalSocketTable
unfolding slot_mut pop
recv t h size = kept t (do
  found ← slot_mut t h
  ensure (is_connected found.1) invalid_state
  ensure (not (has_rights found.1)) invalid_state
  ensure (not (is_starved found.1 size)) would_block
  ok ((pop found.1.receive size).0, write t found.0 (emptied found.1 size)))

abbrev pub delivered : SocketSlot → ℕ → Option AncillaryRights
delivered s size = if length (pop s.receive size).0 == 0 then none else s.rights

abbrev pub after_delivery : SocketSlot → ℕ → Option AncillaryRights
after_delivery s size = if length (pop s.receive size).0 == 0 then s.rights else none

unfoldable pub recv_with_rights :
    LocalSocketTable
    → SocketHandle
    → ℕ
    → Result SocketError (List ℕ × Option AncillaryRights) × LocalSocketTable
unfolding slot_mut pop
recv_with_rights t h size = kept t (do
  found ← slot_mut t h
  ensure (is_connected found.1) invalid_state
  ensure (not (is_starved found.1 size)) would_block
  ok (
    ((pop found.1.receive size).0, delivered found.1 size),
    write t found.0 (record (emptied found.1 size) { rights = after_delivery found.1 size }),
  ))

unfoldable pub take_rights :
    LocalSocketTable → SocketHandle → Result SocketError (Option AncillaryRights) × LocalSocketTable
unfolding slot_mut
take_rights t h = kept t (do
  found ← slot_mut t h
  ok (found.1.rights, write t found.0 (record found.1 { rights = none })))

pub record Readiness : Type 0 where
  pub readable : Bool
  pub writable : Bool
  pub peer_closed : Bool

abbrev pub has_room : Option SocketSlot → Bool
has_room none = false
has_room (some s) = is_connected s && not (available s.receive == 0)

abbrev pub peer_slot : LocalSocketTable → Option ℕ → Option SocketSlot
peer_slot t none = none
peer_slot t (some p) = get_elem? t.slots p

unfoldable pub readiness : LocalSocketTable → SocketHandle → Result SocketError Readiness
unfolding slot_mut available
readiness t h = do
  found ← slot_mut t h
  ensure (is_connected found.1) invalid_state
  ok (record {
    readable = not (found.1.receive.length == 0) || found.1.peer_closed;
    writable = has_room (peer_slot t found.1.peer) && not found.1.peer_closed;
    peer_closed = found.1.peer_closed;
  })
