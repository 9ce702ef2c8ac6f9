-- ===== src/Ipc/Delivery.antt =====
-- What a send leaves in the receive ring of the other end, and what a receive takes out of one.
use slopos.Base.{
  ℕ, ◌<◌, ◌≡◌, ◌≢◌, refl, true, false, not, some, List, ◌++◌, take, min, get_elem?, length, arith,
  inl, inr, Bool-cases, Result-cases, Result, ok, err, All-get_elem?, get_elem?-set,
  get_elem?_bound, leb, ◌&&◌, ◌⊎◌,
}
use slopos.Ipc.Ring.{ByteRing, push, pop, available}
use slopos.Ipc.Ring.Queue.{contents, push-Pushed, pop-Popped}
use slopos.Ipc.Sockets.{
  SocketHandle, SocketError, would_block, invalid_state, SocketSlot, LocalSocketTable, is_connected,
  write, slot_mut,
}
use slopos.Ipc.Streams.{receiver, filled, send_exact, recv, emptied, has_rights, is_starved}
use slopos.Ipc.Steps.{slot_mut_found}
use slopos.Ipc.Steps.Transfers.{receiver_found}
use slopos.Ipc.Handles.{OtherEnd, NoEnd, receiver-OtherEnd, receiver-NoEnd, Stale, slot_mut-Stale}
use slopos.Ipc.Invariant.{IsValid, RingIsValid}

-- A send of which `n` bytes are taken: they are appended to the ring of the other end.
pub record Delivered (t : LocalSocketTable) (h : SocketHandle) (input : List ℕ) (n : ℕ)
    (t' : LocalSocketTable) : Type 0 where
  pub place : ℕ
  pub before : SocketSlot
  pub after : SocketSlot
  pub to : OtherEnd t h place before
  pub taken : n ≡ min (length input) (available before.receive)
  pub at : get_elem? t'.slots place ≡ some after
  pub appended : contents after.receive ≡ contents before.receive ++ take n input
  pub kept : after ≡ record before { receive = after.receive }
  pub others : (j : ℕ) → j ≢ place → get_elem? t'.slots j ≡ get_elem? t.slots j

pub data Sent (t : LocalSocketTable) (h : SocketHandle) (input : List ℕ)
    : Result SocketError ℕ × LocalSocketTable → Type 0 where
  refused : (e : SocketError) → NoEnd t h e → Sent t h input (err e, t)
  blocked :
      (p : ℕ) (s : SocketSlot)
      → OtherEnd t h p s
      → available s.receive ≡ 0
      → Sent t h input (err would_block, t)
  taken :
      (n : ℕ) (t' : LocalSocketTable)
      → (n ≡ 0 → length input ≡ 0)
      → Delivered t h input n t'
      → Sent t h input (ok n, t')

pub data SentWhole (t : LocalSocketTable) (h : SocketHandle) (input : List ℕ)
    : Result SocketError ℕ × LocalSocketTable → Type 0 where
  refused : (e : SocketError) → NoEnd t h e → SentWhole t h input (err e, t)
  blocked :
      (p : ℕ) (s : SocketSlot)
      → OtherEnd t h p s
      → available s.receive < length input
      → SentWhole t h input (err would_block, t)
  whole :
      (n : ℕ) (t' : LocalSocketTable)
      → n ≡ length input
      → Delivered t h input n t'
      → SentWhole t h input (ok n, t')

-- The bytes of a push reach the slot that they are written to, and no other.
filled-Delivered :
    (t : LocalSocketTable) (h : SocketHandle) (input : List ℕ) (p : ℕ) (s : SocketSlot)
    → IsValid t
    → receiver t h true ≡ ok (p, s)
    → Delivered t h input (push s.receive input).0 (write t p (filled s input))
filled-Delivered t h input p s v e =
    let (at, up) = receiver_found t h true p s e in
    let d = push-Pushed s.receive input (All-get_elem? RingIsValid t.slots p v.rings at) in
    record {
      place = p;
      before = s;
      after = filled s input;
      to = receiver-OtherEnd t h p s v e;
      taken = d.taken;
      at = ground (arith, get_elem?-set t.slots p p (filled s input), get_elem?_bound t.slots p at);
      appended = d.appended;
      kept = refl;
      others = λ j apart. ground (arith, get_elem?-set t.slots p j (filled s input));
    }

push_count : (r : ByteRing) (input : List ℕ) → (push r input).0 ≡ min (length input) (available r)
unfolding push
push_count r input = refl

-- `send_exact` on a valid table appends the whole input to the ring of the other end, which is the
-- connected slot that the own slot names as its peer and that names it, or changes nothing: there
-- is less room than the input has bytes, the handle is stale, the socket is not connected, or it
-- has no peer or the peer has closed.
pub send_exact-SentWhole :
    (t : LocalSocketTable) (h : SocketHandle) (input : List ℕ)
    → IsValid t
    → SentWhole t h input (send_exact t h input)
unfolding send_exact
send_exact-SentWhole t h input v = elim (Result-cases (receiver t h true)) [
  | inr (e, f) ↦ rw f (refused e (receiver-NoEnd t h e v f))
  | inl ((p, s), f) ↦
      let d = filled-Delivered t h input p s v f in
      elim (Bool-cases (leb (length input) (available s.receive))) [
        | inr b ↦ rw (f, b) (blocked p s (receiver-OtherEnd t h p s v f) (ground arith))
        | inl b ↦
            rw (f, b)
              (whole (push s.receive input).0 (write t p (filled s input))
                (ground (arith, push_count s.receive input)) d)
      ]
]

-- What `recv` takes: the oldest bytes of the ring, as many as the output holds.
pub record Received (t : LocalSocketTable) (i : ℕ) (before : SocketSlot) (size : ℕ)
    (output : List ℕ) (t' : LocalSocketTable) : Type 0 where
  pub after : SocketSlot
  pub at : get_elem? t'.slots i ≡ some after
  pub count : length output ≡ min size before.receive.length
  pub removed : output ++ contents after.receive ≡ contents before.receive

pub data Read (t : LocalSocketTable) (h : SocketHandle) (size : ℕ)
    : Result SocketError (List ℕ) × LocalSocketTable → Type 0 where
  lost : (e : SocketError) → slot_mut t h ≡ err e → Stale t h → Read t h size (err e, t)
  unfit :
      (i : ℕ) (s : SocketSlot)
      → slot_mut t h ≡ ok (i, s)
      → (is_connected s && not (has_rights s)) ≡ false
      → Read t h size (err invalid_state, t)
  waits :
      (i : ℕ) (s : SocketSlot)
      → slot_mut t h ≡ ok (i, s)
      → s.receive.length ≡ 0
      → s.peer_closed ≡ false
      → Read t h size (err would_block, t)
  reads :
      (i : ℕ) (s : SocketSlot) (output : List ℕ) (t' : LocalSocketTable)
      → slot_mut t h ≡ ok (i, s)
      → (length output ≡ 0 → (size ≡ 0) ⊎ (s.peer_closed ≡ true))
      → Received t i s size output t'
      → Read t h size (ok output, t')

emptied-Received :
    (t : LocalSocketTable) (h : SocketHandle) (size i : ℕ) (s : SocketSlot)
    → IsValid t
    → slot_mut t h ≡ ok (i, s)
    → Received t i s size (pop s.receive size).0 (write t i (emptied s size))
emptied-Received t h size i s v f =
    let (at, live, place, fresh) = slot_mut_found t h i s f in
    let d = pop-Popped s.receive size (All-get_elem? RingIsValid t.slots i v.rings at) in
    record {
      after = emptied s size;
      at = ground (arith, get_elem?-set t.slots i i (emptied s size), get_elem?_bound t.slots i at);
      count = d.count;
      removed = d.removed;
    }

not_starved :
    (s : SocketSlot) (size : ℕ)
    → is_starved s size ≡ false
    → length (pop s.receive size).0 ≡ 0
    → (size ≡ 0) ⊎ (s.peer_closed ≡ true)
not_starved s size h e = elim (Bool-cases s.peer_closed) [
  | inl c ↦ inr c
  | inr c ↦ inl (ground arith)
]

-- `recv` on a valid table takes the oldest bytes of the ring, as many as the output holds, and
-- none only into an empty output or after the other end has closed; or it changes nothing: the
-- handle is not valid, the socket is not connected or has rights to deliver, or there is no byte
-- yet.
pub recv-Read :
    (t : LocalSocketTable) (h : SocketHandle) (size : ℕ) → IsValid t → Read t h size (recv t h size)
unfolding recv
recv-Read t h size v = elim (Result-cases (slot_mut t h)) [
  | inr (e, f) ↦ rw f (lost e f (slot_mut-Stale t h e f).1)
  | inl ((i, s), f) ↦
      let d = emptied-Received t h size i s v f in
      elim (Bool-cases (is_connected s)) [
        | inr b ↦ rw (f, b) (unfit i s f (ground arith))
        | inl b ↦ elim (Bool-cases (has_rights s)) [
          | inl c ↦ rw (f, b, c) (unfit i s f (ground arith))
          | inr c ↦ elim (Bool-cases (is_starved s size)) [
            | inl k ↦ rw (f, b, c, k) (waits i s f (ground (arith, d.count)) (ground arith))
            | inr k ↦
                rw (f, b, c, k)
                  (reads i s (pop s.receive size).0 (write t i (emptied s size)) f
                    (not_starved s size k) d)
          ]
        ]
      ]
]
