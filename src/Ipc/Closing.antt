-- ===== src/Ipc/Closing.antt =====
-- The end of a socket: what `close` leaves of its handle and of the other end.
use slopos.Base.{
  ℕ, ◌≡◌, ◌≢◌, true, some, none, get_elem?, set, arith, inl, inr, Option-cases, Result-cases,
  Result, ok, err, get_elem?-set, get_elem?_bound, List, sym, ◌∙◌, ap, refl, length-set, false, [],
}
use slopos.Ipc.Ring.{empty_ring}
use slopos.Ipc.Ring.Queue.{contents}
use slopos.Ipc.Sockets.{
  free, SocketHandle, SocketError, invalid_handle, SocketSlot, LocalSocketTable, write, slot_mut,
  empty_slot,
}
use slopos.Ipc.Connections.{close, hang_up}
use slopos.Ipc.Steps.{slot_mut_found}
use slopos.Ipc.Handles.{Names, Stale, slot_mut-Names, slot_mut-Stale}
use slopos.Ipc.Invariant.{IsValid}

-- A slot that anyone may take: nothing is left in it but its generation.
pub record Freed (t : LocalSocketTable) (generation : ℕ) (s : SocketSlot) : Type 0 where
  pub state : s.state ≡ free
  pub kept : s.generation ≡ generation
  pub path : s.path_length ≡ 0
  pub peer : s.peer ≡ none
  pub peer_closed : s.peer_closed ≡ false
  pub ring : contents s.receive ≡ []
  pub rights : s.rights ≡ none
  pub pending : s.pending_length ≡ 0

empty_slot-Freed :
    (t : LocalSocketTable) (generation : ℕ) → Freed t generation (empty_slot t generation)
unfolding empty_slot empty_ring contents
empty_slot-Freed t generation = record {
  state = refl;
  kept = refl;
  path = refl;
  peer = refl;
  peer_closed = refl;
  ring = refl;
  rights = refl;
  pending = refl;
}

pub data Closed (t : LocalSocketTable) (h : SocketHandle)
    : Result SocketError (Unit {0}) × LocalSocketTable → Type 0 where
  stale : Stale t h → Closed t h (err invalid_handle, t)
  closes :
      (i : ℕ) (s : SocketSlot) (t' : LocalSocketTable)
      → i ≡ h.index
      → Names t h s
      → Stale t' h
      → slot_mut t' h ≡ err invalid_handle
      → (freed : SocketSlot) → get_elem? t'.slots i ≡ some freed
      → Freed t s.generation freed
      → ((p : ℕ) (other : SocketSlot)
          → s.peer ≡ some p
          → get_elem? t.slots p ≡ some other
          → get_elem? t'.slots p ≡ some (record other { peer = none; peer_closed = true }))
      → ((j : ℕ) → j ≢ i → s.peer ≢ some j → get_elem? t'.slots j ≡ get_elem? t.slots j)
      → Closed t h (ok tt, t')

freed_Stale :
    (t t' : LocalSocketTable) (h : SocketHandle) (generation : ℕ)
    → get_elem? t'.slots h.index ≡ some (empty_slot t generation)
    → Stale t' h × (slot_mut t' h ≡ err invalid_handle)
unfolding slot_mut empty_slot Stale
freed_Stale t t' h generation at = (λ s e. inl (ground arith), ground arith)

-- The answer of `close` where it leaves an empty slot in the place of the handle
closes_freed :
    (t : LocalSocketTable) (h : SocketHandle) (i : ℕ) (s : SocketSlot) (t' : LocalSocketTable)
    → Names t h s
    → i ≡ h.index
    → get_elem? t'.slots i ≡ some (empty_slot t s.generation)
    → ((p : ℕ) (other : SocketSlot)
        → s.peer ≡ some p
        → get_elem? t.slots p ≡ some other
        → get_elem? t'.slots p ≡ some (record other { peer = none; peer_closed = true }))
    → ((j : ℕ) → j ≢ i → s.peer ≢ some j → get_elem? t'.slots j ≡ get_elem? t.slots j)
    → Closed t h (ok tt, t')
closes_freed t h i s t' named place at told others =
    let (gone, refused) =
      freed_Stale t t' h s.generation (ap (get_elem? t'.slots) (sym place) ∙ at) in
    closes i s t' place named gone refused (empty_slot t s.generation) at
      (empty_slot-Freed t s.generation) told others

module _ (xs : List SocketSlot) (p i : ℕ) (a b old : SocketSlot) (at : get_elem? xs p ≡ some old)
    (apart : p ≢ i) where
  read_peer : get_elem? (set (set xs p a) i b) p ≡ some a
  read_peer =
      ground
        (arith, get_elem?-set (set xs p a) i p b, get_elem?-set xs p p a, get_elem?_bound xs p at)

  read_own :
      {c : SocketSlot} → get_elem? xs i ≡ some c → get_elem? (set (set xs p a) i b) i ≡ some b
  read_own at_own =
      ground
        (arith, get_elem?-set (set xs p a) i i b, get_elem?_bound xs i at_own, length-set xs p a)

  read_others : (j : ℕ) → j ≢ i → j ≢ p → get_elem? (set (set xs p a) i b) j ≡ get_elem? xs j
  read_others j from_i from_p =
      ground (arith, get_elem?-set (set xs p a) i j b, get_elem?-set xs p j a)

told :
    (t : LocalSocketTable) (p q : ℕ) (s x other : SocketSlot) (t' : LocalSocketTable)
    → s.peer ≡ some p
    → s.peer ≡ some q
    → get_elem? t.slots p ≡ some x
    → get_elem? t.slots q ≡ some other
    → get_elem? t'.slots p ≡ some (record x { peer = none; peer_closed = true })
    → get_elem? t'.slots q ≡ some (record other { peer = none; peer_closed = true })
told t p q s x other t' e g at_p at_q now = ground arith

-- `close` on a valid table leaves in the place of the handle a free slot of the same generation
-- with nothing in it, so that the handle is stale and refused at once, tells the other end, and
-- leaves all other slots. A handle at whose index there is no slot, a free one or one of another
-- generation is refused with InvalidHandle, without a change.
pub close-Closed : (t : LocalSocketTable) (h : SocketHandle) → IsValid t → Closed t h (close t h)
unfolding close hang_up
close-Closed t h v = elim (Result-cases (slot_mut t h)) [
  | inr (e, f) ↦ let (same, gone) = slot_mut-Stale t h e f in rw (f, same) (stale gone)
  | inl ((i, s), f) ↦
      let (at, live, place, fresh) = slot_mut_found t h i s f in
      elim (Option-cases s.peer) [
        | inl alone ↦
            rw (f, alone, hang_up)
              (closes_freed t h i s (write t i (empty_slot t s.generation))
                (slot_mut-Names t h i s f) place
                (ground (
                  arith,
                  get_elem?-set t.slots i i (empty_slot t s.generation),
                  get_elem?_bound t.slots i at,
                ))
                (λ p other e at_p. absurd (ground arith))
                (λ j apart none_here.
                  ground (arith, get_elem?-set t.slots i j (empty_slot t s.generation))))
        | inr (p, e) ↦
            let l = v.peers.linked i p s at e in
            rw (f, e, hang_up, l.at, l.up)
              (closes_freed t h i s
                (write (write t p (record l.other { peer = none; peer_closed = true })) i
                  (empty_slot t s.generation))
                (slot_mut-Names t h i s f) place
                (read_own t.slots p i (record l.other { peer = none; peer_closed = true })
                  (empty_slot t s.generation) l.other l.at l.apart at)
                (λ q other g at_q.
                  told t p q s l.other other
                    (write (write t p (record l.other { peer = none; peer_closed = true })) i
                      (empty_slot t s.generation))
                    e g l.at at_q
                    (read_peer t.slots p i (record l.other { peer = none; peer_closed = true })
                      (empty_slot t s.generation) l.other l.at l.apart))
                (λ j apart from_peer.
                  read_others t.slots p i (record l.other { peer = none; peer_closed = true })
                    (empty_slot t s.generation) l.other l.at l.apart j apart
                    (λ same. from_peer (e ∙ ap some (sym same)))))
      ]
]
