-- ===== src/Ipc/Steps/Transfers.antt =====
-- The calls that send and receive, as steps of the socket table.
use slopos.Ipc.Steps.{Step, same, rewrites, slot_mut_found}
use slopos.Base.{
  ℕ, ◌≡◌, refl, true, not, Bool, Option, some, none, List, get_elem?, arith, inl, inr, Option-cases,
  Bool-cases, Result-cases, ok, ◌==◌, ◌&&◌, ◌||◌, length, leb,
}
use slopos.Ipc.Ring.{push, available}
use slopos.Ipc.Ring.Queue.{push-Pushed, pop-Popped}
use slopos.Ipc.Sockets.{
  SocketHandle, SocketSlot, LocalSocketTable, AncillaryRights, is_connected, write, slot_mut,
  slot_at,
}
use slopos.Ipc.Streams.{
  receiver, filled, send, send_exact, send_with_rights, recv, recv_with_rights, take_rights,
  emptied, has_rights, is_starved, after_delivery,
}

pub receiver_found :
    (t : LocalSocketTable) (h : SocketHandle) (sends : Bool) (p : ℕ) (s : SocketSlot)
    → receiver t h sends ≡ ok (p, s)
    → (get_elem? t.slots p ≡ some s) × (is_connected s ≡ true)
unfolding receiver slot_at
receiver_found t h sends p s e = elim (Result-cases (slot_mut t h)) [
  | inr (x, f) ↦ absurd (ground arith)
  | inl ((i, a), f) ↦ elim (Option-cases a.peer) [
    | inl g ↦ absurd (ground arith)
    | inr (q, g) ↦ elim (Option-cases (get_elem? t.slots q)) [
      | inl k ↦ absurd (ground arith)
      | inr (b, k) ↦ (ground arith, ground arith)
    ]
  ]
]

filled-Step :
    (t : LocalSocketTable) (p : ℕ) (s : SocketSlot) (input : List ℕ)
    (rights : Option AncillaryRights)
    → get_elem? t.slots p ≡ some s
    → Step t (write t p (record (filled s input) { rights = rights }))
filled-Step t p s input rights at =
    rewrites p s (record (filled s input) { rights = rights }) at refl refl
      (record { ring = λ roomy v. (push-Pushed s.receive input v).valid })

pub send-Step :
    (t : LocalSocketTable) (h : SocketHandle) (input : List ℕ) → Step t (send t h input).1
unfolding send
send-Step t h input = elim (Result-cases (receiver t h true)) [
  | inr (e, f) ↦ rw f same
  | inl ((p, s), f) ↦
      let (at, up) = receiver_found t h true p s f in
      elim (Bool-cases (not ((push s.receive input).0 == 0 && not (length input == 0)))) [
        | inr b ↦ rw (f, b) same
        | inl b ↦ rw (f, b) (filled-Step t p s input s.rights at)
      ]
]

pub send_exact-Step :
    (t : LocalSocketTable) (h : SocketHandle) (input : List ℕ) → Step t (send_exact t h input).1
unfolding send_exact
send_exact-Step t h input = elim (Result-cases (receiver t h true)) [
  | inr (e, f) ↦ rw f same
  | inl ((p, s), f) ↦
      let (at, up) = receiver_found t h true p s f in
      elim (Bool-cases (leb (length input) (available s.receive))) [
        | inr b ↦ rw (f, b) same
        | inl b ↦ rw (f, b) (filled-Step t p s input s.rights at)
      ]
]

pub send_with_rights-Step :
    (t : LocalSocketTable) (h : SocketHandle) (input : List ℕ) (rights : AncillaryRights)
    → Step t (send_with_rights t h input rights).1
unfolding send_with_rights
send_with_rights-Step t h input rights =
    elim (Result-cases (receiver t h (not (length input == 0)))) [
      | inr (e, f) ↦ rw f same
      | inl ((p, s), f) ↦
          let (at, up) = receiver_found t h (not (length input == 0)) p s f in
          elim (Bool-cases (
            not (
              has_rights s
              || (not (s.receive.length == 0)
                  || not (leb (length input) (available s.receive)))))) [
                    | inr b ↦ rw (f, b) same
                    | inl b ↦ elim (Bool-cases ((push s.receive input).0 == length input)) [
                      | inr c ↦ rw (f, b, c) same
                      | inl c ↦ rw (f, b, c) (filled-Step t p s input (some rights) at)
                    ]
                  ]
    ]

emptied-Step :
    (t : LocalSocketTable) (i : ℕ) (s : SocketSlot) (size : ℕ) (rights : Option AncillaryRights)
    → get_elem? t.slots i ≡ some s
    → Step t (write t i (record (emptied s size) { rights = rights }))
emptied-Step t i s size rights at =
    rewrites i s (record (emptied s size) { rights = rights }) at refl refl
      (record { ring = λ roomy v. (pop-Popped s.receive size v).valid })

pub recv-Step : (t : LocalSocketTable) (h : SocketHandle) (size : ℕ) → Step t (recv t h size).1
unfolding recv
recv-Step t h size = elim (Result-cases (slot_mut t h)) [
  | inr (e, f) ↦ rw f same
  | inl ((i, s), f) ↦
      let (at, live, place, fresh) = slot_mut_found t h i s f in
      elim (Bool-cases (is_connected s)) [
        | inr b ↦ rw (f, b) same
        | inl b ↦ elim (Bool-cases (has_rights s)) [
          | inl c ↦ rw (f, b, c) same
          | inr c ↦ elim (Bool-cases (is_starved s size)) [
            | inl d ↦ rw (f, b, c, d) same
            | inr d ↦ rw (f, b, c, d) (emptied-Step t i s size s.rights at)
          ]
        ]
      ]
]

pub recv_with_rights-Step :
    (t : LocalSocketTable) (h : SocketHandle) (size : ℕ) → Step t (recv_with_rights t h size).1
unfolding recv_with_rights
recv_with_rights-Step t h size = elim (Result-cases (slot_mut t h)) [
  | inr (e, f) ↦ rw f same
  | inl ((i, s), f) ↦
      let (at, live, place, fresh) = slot_mut_found t h i s f in
      elim (Bool-cases (is_connected s)) [
        | inr b ↦ rw (f, b) same
        | inl b ↦ elim (Bool-cases (is_starved s size)) [
          | inl d ↦ rw (f, b, d) same
          | inr d ↦ rw (f, b, d) (emptied-Step t i s size (after_delivery s size) at)
        ]
      ]
]

pub take_rights-Step : (t : LocalSocketTable) (h : SocketHandle) → Step t (take_rights t h).1
unfolding take_rights
take_rights-Step t h = elim (Result-cases (slot_mut t h)) [
  | inr (e, f) ↦ rw f same
  | inl ((i, s), f) ↦
      let (at, live, place, fresh) = slot_mut_found t h i s f in
      rw f (rewrites i s (record s { rights = none }) at refl refl (record { ring = λ roomy v. v }))
]
