-- ===== src/Ipc/Ring.antt =====
-- crates/ipc/src/lib.rs: `ByteRing`, the receive buffer of a socket.
pub mod Queue
use slopos.Base.{
  ℕ, zero, suc, ◌+◌, ◌-◌, ◌%◌, ◌==◌, List, [], ◌∷◌, length, take, set, get_elem?, Option, some,
  none, min, replicate, if◌then◌else◌,
}

-- The size BYTES of the ring is the length of the array.
pub record ByteRing : Type 0 where
  pub bytes : List ℕ
  pub head : ℕ
  pub length : ℕ

unfoldable pub empty_ring : ℕ → ByteRing
empty_ring n = record { bytes = replicate n 0; head = 0; length = 0 }

unfoldable pub available : ByteRing → ℕ
available r = length r.bytes - r.length

-- The loop of `push` from one offset on.
unfoldable pub write_from : List ℕ → ℕ → List ℕ → List ℕ
write_from bytes start [] = bytes
write_from bytes start (b ∷ bs) = write_from (set bytes (start % length bytes) b) (start + 1) bs

-- The count, and the ring that is left.
unfoldable pub push : ByteRing → List ℕ → ℕ × ByteRing
unfolding available write_from
push r input =
    let count = min (length input) (available r) in
    (
      count,
      record r {
        bytes = write_from r.bytes (r.head + r.length) (take count input);
        length = r.length + count;
      },
    )

-- A byte of the array; the index is below its length.
abbrev pub byte_at : List ℕ → ℕ → ℕ
byte_at [] i = 0
byte_at (b ∷ bs) zero = b
byte_at (b ∷ bs) (suc i) = byte_at bs i

-- The loop of `pop`: the bytes from one index on.
unfoldable pub read_from : List ℕ → ℕ → ℕ → List ℕ
read_from bytes start zero = []
read_from bytes start (suc n) = byte_at bytes (start % length bytes) ∷ read_from bytes (start + 1) n

-- The bytes that are read into an output of a given size, and the ring that is left.
unfoldable pub pop : ByteRing → ℕ → List ℕ × ByteRing
unfolding read_from
pop r size =
    let count = min size r.length in
    (
      read_from r.bytes r.head count,
      record r {
        head = if length r.bytes == 0 then r.head else (r.head + count) % length r.bytes;
        length = r.length - count;
      },
    )
