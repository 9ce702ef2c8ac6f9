-- ===== src/Ipc/Sockets.antt =====
-- crates/ipc/src/lib.rs: `LocalSocketTable`, its slots and how a socket comes to a connection. The
-- transfer of bytes is Ipc/Streams.antt.
use slopos.Base.{
  ℕ, ◌==◌, ◌&&◌, ◌||◌, not, Bool, true, false, List, [], ◌∷◌, length, take, set, get_elem?,
  replicate, any, Option, none, Result, ok, err, ◌>>=◌, ◌>>◌, ensure, ok_or, keep_if, find, ltb,
  leb, checked_add, u16_mod,
}
use slopos.Ipc.Ring.{ByteRing, empty_ring}

abbrev pub local_path_max : ℕ
local_path_max = 108

pub record SocketHandle : Type 0 where
  pub index : ℕ
  pub generation : ℕ

pub record AncillaryRights : Type 0 where
  pub object : ℕ
  pub generation : ℕ

pub data SocketError : Type 0 where
  table_full invalid_handle invalid_path address_in_use address_not_found invalid_state :
      SocketError
  backlog_full would_block broken_pipe counter_overflow : SocketError

pub data SocketState : Type 0 where
  free created bound listening connected : SocketState

pub record SocketSlot : Type 0 where
  pub generation : ℕ
  pub state : SocketState
  pub path : List ℕ
  pub path_length : ℕ
  pub peer : Option ℕ
  pub peer_closed : Bool
  pub receive : ByteRing
  pub rights : Option AncillaryRights
  pub pending : List (Option ℕ)
  pub pending_head : ℕ
  pub pending_length : ℕ

-- The constants SOCKETS, BACKLOG and BYTES: the first is the length of the array.
pub record LocalSocketTable : Type 0 where
  pub slots : List SocketSlot
  pub backlog : ℕ
  pub bytes : ℕ

-- SocketSlot::EMPTY, with a generation kept
unfoldable pub empty_slot : LocalSocketTable → ℕ → SocketSlot
unfolding empty_ring
empty_slot t generation = record {
  generation = generation;
  state = free;
  path = replicate local_path_max 0;
  path_length = 0;
  peer = none;
  peer_closed = false;
  receive = empty_ring t.bytes;
  rights = none;
  pending = replicate t.backlog none;
  pending_head = 0;
  pending_length = 0;
}

unfoldable pub new : ℕ → ℕ → ℕ → LocalSocketTable
unfolding empty_slot
new sockets backlog bytes =
    let bare : LocalSocketTable = record { slots = []; backlog = backlog; bytes = bytes } in
    record bare { slots = replicate sockets (empty_slot bare 0) }

abbrev pub is_free : SocketSlot → Bool
is_free s = elim s.state [ free ↦ true | _ ↦ false ]

abbrev pub is_created : SocketSlot → Bool
is_created s = elim s.state [ created ↦ true | _ ↦ false ]

abbrev pub is_bound : SocketSlot → Bool
is_bound s = elim s.state [ bound ↦ true | _ ↦ false ]

abbrev pub is_listening : SocketSlot → Bool
is_listening s = elim s.state [ listening ↦ true | _ ↦ false ]

abbrev pub is_connected : SocketSlot → Bool
is_connected s = elim s.state [ connected ↦ true | _ ↦ false ]

abbrev pub same_bytes : List ℕ → List ℕ → Bool
same_bytes [] [] = true
same_bytes (a ∷ xs) (b ∷ ys) = a == b && same_bytes xs ys
same_bytes _ _ = false

-- `slot.path[..slot.path_length] == *path`
abbrev pub has_path : List ℕ → SocketSlot → Bool
has_path path s = same_bytes (take s.path_length s.path) path

-- `&self.slots[index]`
unfoldable pub slot_at : LocalSocketTable → ℕ → Result SocketError SocketSlot
slot_at t i = ok_or (get_elem? t.slots i) invalid_handle

abbrev pub write : LocalSocketTable → ℕ → SocketSlot → LocalSocketTable
write t i s = record t { slots = set t.slots i s }

-- `index` and `slot_mut`: the place and the slot of a handle.
unfoldable pub slot_mut : LocalSocketTable → SocketHandle → Result SocketError (ℕ × SocketSlot)
slot_mut t h = do
  s ←
      ok_or
        (keep_if (λ (s : SocketSlot). not (is_free s) && s.generation == h.generation)
          (get_elem? t.slots h.index))
        invalid_handle
  ok (h.index, s)

-- SocketSlot::handle
unfoldable pub handle : SocketSlot → ℕ → Result SocketError SocketHandle
handle s i = do
  ensure (ltb i u16_mod) table_full
  ok (record { index = i; generation = s.generation })

abbrev pub is_absolute : List ℕ → Bool
is_absolute [] = false
is_absolute (b ∷ bs) = b == 47

unfoldable pub validate_path : List ℕ → Result SocketError (Unit {0})
validate_path path =
    ensure
      (not (
        length path == 0
        || (ltb local_path_max (length path)
            || (not (is_absolute path) || any (λ b. b == 0) path))))
      invalid_path

-- `reset_for_allocation`
abbrev pub allocated : LocalSocketTable → ℕ → SocketSlot
allocated t generation = record (empty_slot t generation) { state = created }

-- Methods on `&mut self` return the answer and the table; a method that fails changes nothing.
abbrev pub kept {ℓ} :
    {A : Type ℓ}
    → LocalSocketTable
    → Result SocketError (A × LocalSocketTable)
    → Result SocketError A × LocalSocketTable
kept t (err e) = (err e, t)
kept t (ok (a, t')) = (ok a, t')

-- The place of a new socket and its generation.
unfoldable pub free_place : LocalSocketTable → Result SocketError (ℕ × ℕ)
free_place t = do
  ensure (not (leb u16_mod (length t.slots) || (t.backlog == 0 || t.bytes == 0))) table_full
  found ← ok_or (find is_free t.slots) table_full
  generation ← ok_or (checked_add u16_mod found.1.generation 1) counter_overflow
  ok (found.0, generation)

unfoldable pub socket : LocalSocketTable → Result SocketError SocketHandle × LocalSocketTable
unfolding free_place empty_slot handle
socket t = kept t (do
  place ← free_place t
  h ← handle (allocated t place.1) place.0
  ok (h, write t place.0 (allocated t place.1)))

-- `path[..input.len()].copy_from_slice(input)`
abbrev pub copy_into : List ℕ → List ℕ → List ℕ
copy_into xs [] = xs
copy_into [] bs = []
copy_into (x ∷ xs) (b ∷ bs) = b ∷ copy_into xs bs

unfoldable pub bind :
    LocalSocketTable → SocketHandle → List ℕ → Result SocketError (Unit {0}) × LocalSocketTable
unfolding validate_path slot_mut
bind t h path = kept t (do
  validate_path path
  ensure (not (any (λ s. (is_bound s || is_listening s) && has_path path s) t.slots)) address_in_use
  found ← slot_mut t h
  ensure (is_created found.1) invalid_state
  ok (
    tt,
    write t found.0 (record found.1 {
      path = copy_into found.1.path path;
      path_length = length path;
      state = bound;
    }),
  ))

unfoldable pub listen :
    LocalSocketTable → SocketHandle → Result SocketError (Unit {0}) × LocalSocketTable
unfolding slot_mut
listen t h = kept t (do
  found ← slot_mut t h
  ensure (is_bound found.1) invalid_state
  ok (tt, write t found.0 (record found.1 { state = listening })))
