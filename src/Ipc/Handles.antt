-- ===== src/Ipc/Handles.antt =====
-- crates/ipc/src/lib.rs: what a handle names, and the other end of a connection, read off the slots.
use slopos.Base.{
  ℕ, ◌≡◌, ◌≢◌, ◌⊎◌, some, none, true, false, get_elem?, arith, inl, inr, Option-cases, Bool-cases,
  Result-cases, ok, err, refl, subst, ap, ◌∙◌,
}
use slopos.Ipc.Sockets.{
  SocketHandle, SocketError, invalid_handle, invalid_state, broken_pipe, SocketSlot, SocketState,
  slot_at, free, connected, LocalSocketTable, is_free, is_connected, slot_mut,
}
use slopos.Ipc.Streams.{receiver}
use slopos.Ipc.Invariant.{IsValid}

-- The slot that a handle names: it stands at the handle's index, is in use and has its generation.
pub record Names (t : LocalSocketTable) (h : SocketHandle) (s : SocketSlot) : Type 0 where
  pub at : get_elem? t.slots h.index ≡ some s
  pub used : s.state ≢ free
  pub same : s.generation ≡ h.generation

-- What stands at the handle's index, if anything, is free or of another generation.
unfoldable pub Stale : LocalSocketTable → SocketHandle → Type 0
Stale t h =
    (s : SocketSlot)
    → get_elem? t.slots h.index ≡ some s
    → (s.state ≡ free) ⊎ (s.generation ≢ h.generation)

-- The other end of a handle's connection: both slots are connected and name each other.
pub record OtherEnd (t : LocalSocketTable) (h : SocketHandle) (p : ℕ) (other : SocketSlot)
    : Type 0 where
  pub own : SocketSlot
  pub named : Names t h own
  pub peer : own.peer ≡ some p
  pub not_closed : own.peer_closed ≡ false
  pub here : own.state ≡ connected
  pub at : get_elem? t.slots p ≡ some other
  pub there : other.state ≡ connected
  pub back : other.peer ≡ some h.index
  pub apart : p ≢ h.index

-- Why a handle has no other end to write to, with the error that says so.
pub data NoEnd (t : LocalSocketTable) (h : SocketHandle) : SocketError → Type 0 where
  stale : Stale t h → NoEnd t h invalid_handle
  not_connected : (s : SocketSlot) → Names t h s → s.state ≢ connected → NoEnd t h invalid_state
  alone : (s : SocketSlot) → Names t h s → s.peer ≡ none → NoEnd t h broken_pipe
  hung_up : (s : SocketSlot) → Names t h s → s.peer_closed ≡ true → NoEnd t h broken_pipe

is_free_state : (s : SocketSlot) → is_free s ≡ true → s.state ≡ free
is_free_state s e = from s.state refl e
  where
    from :
        (st : SocketState)
        → s.state ≡ st
        → is_free (record s { state = st }) ≡ true
        → s.state ≡ free
    from free same test = same
    from _ same test = absurd (ground arith)

not_free : (s : SocketSlot) → is_free s ≡ false → s.state ≢ free
not_free s e f = ground arith

is_connected_state : (s : SocketSlot) → is_connected s ≡ true → s.state ≡ connected
is_connected_state s e = from s.state refl e
  where
    from :
        (st : SocketState)
        → s.state ≡ st
        → is_connected (record s { state = st }) ≡ true
        → s.state ≡ connected
    from connected same test = same
    from _ same test = absurd (ground arith)

not_connected_state : (s : SocketSlot) → is_connected s ≡ false → s.state ≢ connected
not_connected_state s e f = ground arith

pub slot_mut-Names :
    (t : LocalSocketTable) (h : SocketHandle) (i : ℕ) (s : SocketSlot)
    → slot_mut t h ≡ ok (i, s)
    → Names t h s
unfolding slot_mut
slot_mut-Names t h i s e = elim (Option-cases (get_elem? t.slots h.index)) [
  | inl f ↦ absurd (ground arith)
  | inr (x, f) ↦ record { at = ground arith; used = not_free s (ground arith); same = ground arith }
]

pub slot_mut-Stale :
    (t : LocalSocketTable) (h : SocketHandle) (e : SocketError)
    → slot_mut t h ≡ err e
    → (e ≡ invalid_handle) × Stale t h
unfolding slot_mut Stale
slot_mut-Stale t h e f = (
  ground arith,
  λ s at. elim (Bool-cases (is_free s)) [
    | inl b ↦ inl (is_free_state s b)
    | inr b ↦ inr (λ same. ground arith)
  ],
)

pub receiver-OtherEnd :
    (t : LocalSocketTable) (h : SocketHandle) (p : ℕ) (other : SocketSlot)
    → IsValid t
    → receiver t h true ≡ ok (p, other)
    → OtherEnd t h p other
unfolding receiver slot_at
receiver-OtherEnd t h p other v e = elim (Result-cases (slot_mut t h)) [
  | inr (x, f) ↦ absurd (ground arith)
  | inl ((i, s), f) ↦
      let n = slot_mut-Names t h i s f in
      elim (Option-cases s.peer) [
        | inl g ↦ absurd (ground arith)
        | inr (q, g) ↦
            let l = v.peers.linked h.index q s n.at g in
            let same : q ≡ p = ground (arith, l.at) in
            record {
              own = s;
              named = n;
              peer = g ∙ ap some same;
              not_closed = ground (arith, l.at);
              here = is_connected_state s l.here;
              at = ground (arith, l.at);
              there = is_connected_state other (ground (arith, l.at));
              back = ground (arith, l.at, l.back);
              apart = λ z. l.apart (same ∙ z);
            }
      ]
]

pub receiver-NoEnd :
    (t : LocalSocketTable) (h : SocketHandle) (e : SocketError)
    → IsValid t
    → receiver t h true ≡ err e
    → NoEnd t h e
unfolding receiver slot_at
receiver-NoEnd t h e v f = elim (Result-cases (slot_mut t h)) [
  | inr (x, g) ↦
      let (same, gone) = slot_mut-Stale t h x g in subst (NoEnd t h) (ground arith) (stale gone)
  | inl ((i, s), g) ↦
      let n = slot_mut-Names t h i s g in
      elim (Bool-cases (is_connected s)) [
        | inr b ↦ subst (NoEnd t h) (ground arith) (not_connected s n (not_connected_state s b))
        | inl b ↦ elim (Option-cases s.peer) [
          | inl k ↦ subst (NoEnd t h) (ground arith) (alone s n k)
          | inr (q, k) ↦
              let l = v.peers.linked h.index q s n.at k in
              elim (Bool-cases s.peer_closed) [
                | inl c ↦ subst (NoEnd t h) (ground (arith, l.at, l.up)) (hung_up s n c)
                | inr c ↦ absurd (ground (arith, l.at, l.up))
              ]
        ]
      ]
]
