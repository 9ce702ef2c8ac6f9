-- ===== src/Ipc/Invariant.antt =====
-- The invariant of the socket table.
use slopos.Base.{
  ℕ, ◌≤◌, ◌≡◌, ◌≢◌, some, List, [], get_elem?, set, arith, inl, inr, All, All-set, All-get_elem?,
  All-replicate, get_elem?-replicate, get_elem?-set,
}
use slopos.Ipc.Ring.Queue
use slopos.Ipc.Sockets.{
  SocketHandle, AncillaryRights, SocketSlot, LocalSocketTable, new, empty_slot, socket, bind,
  listen,
}
use slopos.Ipc.Connections.{connect, accept, close}
use slopos.Ipc.Streams.{send, send_exact, send_with_rights, recv, recv_with_rights, take_rights}
use slopos.Ipc.Peers.{
  Symmetric, loose, Symmetric-loose, Symmetric-same, Symmetric-link, Symmetric-cut,
}
use slopos.Ipc.Steps.{Step, same, rewrites, drops, links, cuts, Steps, one, two, KeepsRing}
use slopos.Ipc.Steps.Setup.{listen-Step, bind-Step, socket-Step, empty_ring-IsValid}
use slopos.Ipc.Steps.Connecting.{accept-Step, connect-Steps, close-Step}
use slopos.Ipc.Steps.Transfers.{
  send-Step, send_exact-Step, send_with_rights-Step, recv-Step, recv_with_rights-Step,
  take_rights-Step,
}

-- The calls that change a socket table.
pub data Call : Type 0 where
  opens : Call
  binds connects : SocketHandle → List ℕ → Call
  listens accepts takes closes : SocketHandle → Call
  sends sends_exact : SocketHandle → List ℕ → Call
  sends_rights : SocketHandle → List ℕ → AncillaryRights → Call
  receives receives_rights : SocketHandle → ℕ → Call

unfoldable pub act : LocalSocketTable → Call → LocalSocketTable
act t opens = (socket t).1
act t (binds h path) = (bind t h path).1
act t (connects h path) = (connect t h path).1
act t (listens h) = (listen t h).1
act t (accepts h) = (accept t h).1
act t (takes h) = (take_rights t h).1
act t (closes h) = (close t h).1
act t (sends h input) = (send t h input).1
act t (sends_exact h input) = (send_exact t h input).1
act t (sends_rights h input rights) = (send_with_rights t h input rights).1
act t (receives h size) = (recv t h size).1
act t (receives_rights h size) = (recv_with_rights t h size).1

-- Peers name each other, and every ring is in bounds and holds a byte at least.
pub record IsValid (t : LocalSocketTable) : Type 0 where
  pub peers : Symmetric t.slots
  pub rings : All (λ (s : SocketSlot). Queue.IsValid s.receive) t.slots
  pub roomy : 1 ≤ t.bytes

abbrev pub RingIsValid : SocketSlot → Type 0
RingIsValid s = Queue.IsValid s.receive

write_ring :
    (t : LocalSocketTable) (xs : List SocketSlot) (i : ℕ) (old new : SocketSlot)
    → 1 ≤ t.bytes
    → All RingIsValid xs
    → get_elem? xs i ≡ some old
    → KeepsRing t old new
    → All RingIsValid (set xs i new)
write_ring t xs i old new roomy v at k =
    All-set RingIsValid xs i new v (k.ring roomy (All-get_elem? RingIsValid xs i v at))

-- Both slots of a pair of writes.
ring_both :
    (t : LocalSocketTable) (xs : List SocketSlot) (i k : ℕ) (a b new_a new_b : SocketSlot)
    → 1 ≤ t.bytes
    → All RingIsValid xs
    → get_elem? xs i ≡ some a
    → get_elem? xs k ≡ some b
    → i ≢ k
    → KeepsRing t a new_a
    → KeepsRing t b new_b
    → All RingIsValid (set (set xs i new_a) k new_b)
ring_both t xs i k a b new_a new_b roomy v at_a at_b apart ka kb =
    write_ring t (set xs i new_a) k b new_b roomy (write_ring t xs i a new_a roomy v at_a ka)
      (ground (arith, get_elem?-set xs i k new_a)) kb

Step-IsValid : (t t' : LocalSocketTable) → IsValid t → Step t t' → IsValid t'
Step-IsValid t _ v same = v
Step-IsValid t _ v (rewrites i old new at up alike k) = record {
  peers = Symmetric-same t.slots i old new v.peers at up alike;
  rings = write_ring t t.slots i old new v.roomy v.rings at k;
  roomy = v.roomy;
}
Step-IsValid t _ v (drops i old new at (inl off) alone k) = record {
  peers =
      Symmetric-loose t.slots i old new v.peers at (loose t.slots i old new v.peers at off) alone;
  rings = write_ring t t.slots i old new v.roomy v.rings at k;
  roomy = v.roomy;
}
Step-IsValid t _ v (drops i old new at (inr bare) alone k) = record {
  peers = Symmetric-loose t.slots i old new v.peers at bare alone;
  rings = write_ring t t.slots i old new v.roomy v.rings at k;
  roomy = v.roomy;
}
Step-IsValid t _ v (links i k a b new_a new_b at_a at_b apart off_a off_b pa pb ca cb ka kb) =
    record {
      peers =
          Symmetric-link t.slots i k a b new_a new_b v.peers at_a at_b apart
            (loose t.slots i a new_a v.peers at_a off_a)
            (loose t.slots k b new_b v.peers at_b off_b) pa pb ca cb;
      rings = ring_both t t.slots i k a b new_a new_b v.roomy v.rings at_a at_b apart ka kb;
      roomy = v.roomy;
    }
Step-IsValid t _ v (cuts i k a b new_a new_b at_a at_b apart pa pb na nb ka kb) = record {
  peers = Symmetric-cut t.slots i k a b new_a new_b v.peers at_a at_b apart pa pb na nb;
  rings = ring_both t t.slots i k a b new_a new_b v.roomy v.rings at_a at_b apart ka kb;
  roomy = v.roomy;
}

act-Steps : (t : LocalSocketTable) (call : Call) → IsValid t → Steps t (act t call)
unfolding act
act-Steps t opens v = one (socket t).1 (socket-Step t)
act-Steps t (binds h path) v = one (bind t h path).1 (bind-Step t h path)
act-Steps t (connects h path) v = connect-Steps t h path
act-Steps t (listens h) v = one (listen t h).1 (listen-Step t h)
act-Steps t (accepts h) v = one (accept t h).1 (accept-Step t h)
act-Steps t (takes h) v = one (take_rights t h).1 (take_rights-Step t h)
act-Steps t (closes h) v = one (close t h).1 (close-Step t h v.peers)
act-Steps t (sends h input) v = one (send t h input).1 (send-Step t h input)
act-Steps t (sends_exact h input) v = one (send_exact t h input).1 (send_exact-Step t h input)
act-Steps t (sends_rights h input rights) v =
    one (send_with_rights t h input rights).1 (send_with_rights-Step t h input rights)
act-Steps t (receives h size) v = one (recv t h size).1 (recv-Step t h size)
act-Steps t (receives_rights h size) v =
    one (recv_with_rights t h size).1 (recv_with_rights-Step t h size)

Steps-IsValid : (t t' : LocalSocketTable) → IsValid t → Steps t t' → IsValid t'
Steps-IsValid t _ v (one t' s) = Step-IsValid t t' v s
Steps-IsValid t _ v (two t' t'' s r) = Step-IsValid t' t'' (Step-IsValid t t' v s) r

pub new-IsValid : (sockets backlog bytes : ℕ) → 1 ≤ bytes → IsValid (new sockets backlog bytes)
unfolding new empty_slot
new-IsValid sockets backlog bytes roomy =
    let bare : LocalSocketTable = record { slots = []; backlog = backlog; bytes = bytes } in
    record {
      peers = record {
        linked = λ i p s at e.
            absurd (ground (arith, get_elem?-replicate sockets i (empty_slot bare 0)));
      };
      rings =
          All-replicate RingIsValid sockets (empty_slot bare 0) (empty_ring-IsValid bytes roomy);
      roomy = roomy;
    }

-- Every call of the socket table keeps it valid: a slot with a peer is connected and its peer is
-- another connected slot that names it in turn, and every receive ring is in bounds; the rings
-- hold a byte at least.
pub act-IsValid : (t : LocalSocketTable) (call : Call) → IsValid t → IsValid (act t call)
act-IsValid t call v = Steps-IsValid t (act t call) v (act-Steps t call v)
