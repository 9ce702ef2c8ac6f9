-- ===== src/Ipc/Steps/Setup.antt =====
-- The calls that open, name, connect and close sockets, as steps of the socket table.
use slopos.Ipc.Sockets.{
  SocketHandle, SocketSlot, LocalSocketTable, is_connected, is_free, is_created, is_bound,
  is_listening, has_path, slot_mut, handle, socket, bind, listen, empty_slot, allocated,
  validate_path, free_place, copy_into, listening, bound,
}
use slopos.Base.{
  ℕ, ◌≤◌, ◌≡◌, refl, false, some, List, get_elem?, arith, inl, inr, Option-cases, Bool-cases,
  Result-cases, ok, ◌&&◌, ◌||◌, find, find-get_elem?, length, any, length-replicate, subst, sym,
}
use slopos.Ipc.Steps.{Step, same, rewrites, drops, KeepsRing, slot_mut_found}
use slopos.Ipc.Ring.{empty_ring}
use slopos.Ipc.Ring.Queue.{push-Pushed, pop-Popped}
use slopos.Ipc.Ring.Queue

pub listen-Step : (t : LocalSocketTable) (h : SocketHandle) → Step t (listen t h).1
unfolding listen
listen-Step t h = elim (Result-cases (slot_mut t h)) [
  | inr (e, f) ↦ rw f same
  | inl ((i, s), f) ↦
      let (at, live, place, fresh) = slot_mut_found t h i s f in
      elim (Bool-cases (is_bound s)) [
        | inr b ↦ rw (f, b) same
        | inl b ↦
            rw (f, b)
              (rewrites i s (record s { state = listening }) at (ground arith) refl
                (record { ring = λ roomy v. v }))
      ]
]

pub bind-Step : (t : LocalSocketTable) (h : SocketHandle) (path : List ℕ) → Step t (bind t h path).1
unfolding bind
bind-Step t h path = elim (Result-cases (validate_path path)) [
  | inr (e, p) ↦ rw p same
  | inl (u, p) ↦
      elim (Bool-cases (any (λ s. (is_bound s || is_listening s) && has_path path s) t.slots)) [
        | inl b ↦ rw (p, b) same
        | inr b ↦ elim (Result-cases (slot_mut t h)) [
          | inr (e, f) ↦ rw (p, b, f) same
          | inl ((i, s), f) ↦
              let (at, live, place, fresh) = slot_mut_found t h i s f in
              elim (Bool-cases (is_created s)) [
                | inr c ↦ rw (p, b, f, c) same
                | inl c ↦
                    rw (p, b, f, c)
                      (rewrites i s
                        (record s {
                          path = copy_into s.path path;
                          path_length = length path;
                          state = bound;
                        })
                        at (ground arith) refl (record { ring = λ roomy v. v }))
              ]
        ]
      ]
]

pub empty_ring-IsValid : (n : ℕ) → 1 ≤ n → Queue.IsValid (empty_ring n)
unfolding empty_ring
empty_ring-IsValid n roomy = record {
  fits = omega arith;
  inside = omega (arith, roomy, length-replicate {A = ℕ} n 0);
}

-- A slot with an empty ring.
pub fresh-KeepsRing :
    (t : LocalSocketTable) (old new : SocketSlot)
    → new.receive ≡ empty_ring t.bytes
    → KeepsRing t old new
fresh-KeepsRing t old new e = record {
  ring = λ roomy v. subst Queue.IsValid (sym e) (empty_ring-IsValid t.bytes roomy);
}

free_place_found :
    (t : LocalSocketTable) (i generation : ℕ)
    → free_place t ≡ ok (i, generation)
    → (old : SocketSlot) × (get_elem? t.slots i ≡ some old) × (is_connected old ≡ false)
unfolding free_place
free_place_found t i generation e = elim (Option-cases (find is_free t.slots)) [
  | inl f ↦ absurd (ground arith)
  | inr ((j, old), f) ↦
      let (at, off) = find-get_elem? is_free t.slots j old f in (old, ground arith, ground arith)
]

pub socket-Step : (t : LocalSocketTable) → Step t (socket t).1
unfolding socket empty_slot
socket-Step t = elim (Result-cases (free_place t)) [
  | inr (e, f) ↦ rw f same
  | inl ((i, generation), f) ↦
      let (old, at, off) = free_place_found t i generation f in
      elim (Result-cases (handle (allocated t generation) i)) [
        | inr (e, g) ↦ rw (f, g) same
        | inl (a, g) ↦
            rw (f, g)
              (drops i old (allocated t generation) at (inl off) refl
                (fresh-KeepsRing t old (allocated t generation) refl))
      ]
]
