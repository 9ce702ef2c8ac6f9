-- ===== src/Ipc/Steps/Connecting.antt =====
-- `connect`, `accept` and `close` as steps of the socket table.
use slopos.Base.{
  ℕ, suc, ◌-◌, ◌≤◌, ◌≡◌, refl, true, Bool, some, none, List, [], ◌∷◌, get_elem?, set, arith, inl,
  inr, Option-cases, Bool-cases, Result-cases, ok, get_elem?-set, ◌==◌, ◌&&◌, find, find-get_elem?,
  ◌∙◌, ap,
}
use slopos.Ipc.Sockets.{
  SocketHandle, SocketSlot, LocalSocketTable, is_created, is_listening, has_path, write, slot_mut,
  slot_at, handle, empty_slot, allocated, validate_path, connected,
}
use slopos.Ipc.Connections.{
  Ends, find_ends, find_from, is_other_free, link, enqueue, connect, dequeue, accept, hang_up,
  close, joined,
}
use slopos.Ipc.Peers.{Symmetric}
use slopos.Ipc.Steps.Setup.{fresh-KeepsRing}
use slopos.Ipc.Steps.{Step, same, rewrites, drops, links, cuts, Steps, one, two, slot_mut_found}

pub accept-Step : (t : LocalSocketTable) (h : SocketHandle) → Step t (accept t h).1
unfolding accept slot_at dequeue
accept-Step t h = elim (Result-cases (slot_mut t h)) [
  | inr (e, f) ↦ rw f same
  | inl ((i, s), f) ↦
      let (at, live, place, fresh) = slot_mut_found t h i s f in
      elim (Bool-cases (is_listening s)) [
        | inr b ↦ rw (f, b) same
        | inl b ↦ elim (Bool-cases (s.pending_length == 0)) [
          | inl c ↦ rw (f, b, c) same
          | inr c ↦ elim (Option-cases (joined (get_elem? s.pending s.pending_head))) [
            | inl d ↦ rw (f, b, c, d) same
            | inr (p, d) ↦ elim (Result-cases (slot_at (write t i (dequeue t.backlog s)) p)) [
              | inr (e, k) ↦ rw (f, b, c, d, k) same
              | inl (x, k) ↦ elim (Result-cases (handle x p)) [
                | inr (e, m) ↦ rw (f, b, c, d, k, m) same
                | inl (a, m) ↦
                    rw (f, b, c, d, k, m)
                      (rewrites i s (dequeue t.backlog s) at refl refl
                        (record { ring = λ roomy v. v }))
              ]
            ]
          ]
        ]
      ]
]

find_from_found {ℓ} :
    {A : Type ℓ} (p : ℕ → A → Bool) (n : ℕ) (xs : List A) (i : ℕ) (a : A)
    → find_from p n xs ≡ some (i, a)
    → (n ≤ i) × (get_elem? xs (i - n) ≡ some a) × (p i a ≡ true)
unfolding find_from
find_from_found p n [] i a e = absurd (cc)
find_from_found p n (x ∷ xs) i a e = elim (Bool-cases (p n x)) [
  | inl b ↦ (ground arith, ground arith, ground arith)
  | inr b ↦
      let (le, at, holds) = find_from_found p (suc n) xs i a (ground arith) in
      let earlier : i - n ≡ suc (i - suc n) = omega (arith, le) in
      (omega (arith, le), rw earlier at, holds)
]

-- What the checks of `connect` have seen.
record Found (t : LocalSocketTable) (e : Ends) : Type 0 where
  pub client_at : get_elem? t.slots e.client.0 ≡ some e.client.1
  pub client_created : is_created e.client.1 ≡ true
  pub listener_at : get_elem? t.slots e.listener.0 ≡ some e.listener.1
  pub listener_listens : is_listening e.listener.1 ≡ true
  pub server_at : get_elem? t.slots e.server.0 ≡ some e.server.1
  pub server_free : is_other_free e.client.0 e.listener.0 e.server.0 e.server.1 ≡ true

find_ends-Found :
    (t : LocalSocketTable) (h : SocketHandle) (path : List ℕ) (e : Ends)
    → find_ends t h path ≡ ok e
    → Found t e
unfolding find_ends
find_ends-Found t h path e f = elim (Result-cases (validate_path path)) [
  | inr (x, p) ↦ absurd (ground arith)
  | inl (u, p) ↦ elim (Result-cases (slot_mut t h)) [
    | inr (x, g) ↦ absurd (ground arith)
    | inl ((i, s), g) ↦
        let (at, live, place, fresh) = slot_mut_found t h i s g in
        elim (Option-cases (find (λ s. is_listening s && has_path path s) t.slots)) [
          | inl k ↦ absurd (ground arith)
          | inr ((j, l), k) ↦
              let (l_at, listens) =
                find-get_elem? (λ s. is_listening s && has_path path s) t.slots j l k in
              elim (Option-cases (find_from (is_other_free i j) 0 t.slots)) [
                | inl m ↦ absurd (ground arith)
                | inr ((q, w), m) ↦
                    let (le, w_at, off) = find_from_found (is_other_free i j) 0 t.slots q w m in
                    let here : q ≡ q - 0 = omega arith in
                    let w_here = ap (get_elem? t.slots) here ∙ w_at in
                    record {
                      client_at = ground arith;
                      client_created = ground arith;
                      listener_at = ground arith;
                      listener_listens = ground arith;
                      server_at = ground (arith, w_here);
                      server_free = ground arith;
                    }
              ]
        ]
  ]
]

-- The listener is neither of the two ends.
listener_stays :
    (t : LocalSocketTable) (e : Ends) (p : Found t e) (server client : SocketSlot)
    → get_elem? (set (set t.slots e.server.0 server) e.client.0 client) e.listener.0
      ≡ some e.listener.1
listener_stays t e p server client =
    get_elem?-set (set t.slots e.server.0 server) e.client.0 e.listener.0 client
    ∙ ground (
      arith,
      p.server_free,
      p.listener_listens,
      p.client_created,
      p.client_at,
      p.listener_at,
      get_elem?-set t.slots e.server.0 e.listener.0 server,
    )

pub connect-Steps :
    (t : LocalSocketTable) (h : SocketHandle) (path : List ℕ) → Steps t (connect t h path).1
unfolding connect link enqueue empty_slot
connect-Steps t h path = elim (Result-cases (find_ends t h path)) [
  | inr (x, f) ↦ rw f (one t same)
  | inl (e, f) ↦
      let p = find_ends-Found t h path e f in
      let server = record (allocated t e.generation) {
        state = connected;
        peer = some e.client.0;
      } in
      let client = record e.client.1 { state = connected; peer = some e.server.0 } in
      rw f (
        two (link t e.client.0 e.client.1 e.server.0 e.generation)
          (write (link t e.client.0 e.client.1 e.server.0 e.generation) e.listener.0
            (enqueue t.backlog e.listener.1 e.server.0))
          (links e.server.0 e.client.0 e.server.1 e.client.1 server client p.server_at p.client_at
            (λ x. absurd (ground (arith, p.server_free))) (ground (arith, p.server_free))
            (ground (arith, p.client_created)) refl refl refl refl
            (fresh-KeepsRing t e.server.1 server refl) (record { ring = λ roomy v. v }))
          (rewrites e.listener.0 e.listener.1 (enqueue t.backlog e.listener.1 e.server.0)
            (listener_stays t e p server client) refl refl (record { ring = λ roomy v. v })))
]

pub close-Step :
    (t : LocalSocketTable) (h : SocketHandle) → Symmetric t.slots → Step t (close t h).1
unfolding close hang_up empty_slot
close-Step t h v = elim (Result-cases (slot_mut t h)) [
  | inr (e, f) ↦ rw f same
  | inl ((i, s), f) ↦
      let (at, live, place, fresh) = slot_mut_found t h i s f in
      elim (Option-cases s.peer) [
        | inl alone ↦
            rw (f, alone, hang_up)
              (drops i s (empty_slot t s.generation) at (inr alone) refl
                (fresh-KeepsRing t s (empty_slot t s.generation) refl))
        | inr (p, e) ↦
            let l = v.linked i p s at e in
            rw (f, e, hang_up, l.at, l.up)
              (cuts p i l.other s (record l.other { peer = none; peer_closed = true })
                (empty_slot t s.generation) l.at at l.apart l.back e refl refl
                (record { ring = λ roomy w. w })
                (fresh-KeepsRing t s (empty_slot t s.generation) refl))
      ]
]
