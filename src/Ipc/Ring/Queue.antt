-- ===== src/Ipc/Ring/Queue.antt =====
-- The byte ring as a queue: its bytes in order, what `push` appends and what `pop` removes.
use slopos.Base.{
  ℕ, zero, suc, ◌+◌, ◌-◌, ◌%◌, ◌<◌, ◌≤◌, ◌==◌, ◌∙◌, if◌then◌else◌, append_assoc, append-nil, sym,
  Bool-cases, inl, inr, ltb, false, ◌≡◌, refl, ap, List, [], ◌∷◌, ◌++◌, length, take, set, min,
  arith, length-set, length-take, ◌≢◌,
}
use native.Mathlib.Nat.{mod-add-mod, mod-eq_of_lt, mod-eq-sub-mod, mod-lt, mod-mod}
use slopos.Ipc.Ring.{ByteRing, available, write_from, push, byte_at, read_from, pop}

-- The bytes in the ring, oldest first.
unfoldable pub contents : ByteRing → List ℕ
unfolding read_from
contents r = read_from r.bytes r.head r.length

pub record IsValid (r : ByteRing) : Type 0 where
  pub fits : r.length ≤ length r.bytes
  pub inside : r.head < length r.bytes

byte_at-set :
    (xs : List ℕ) (i j b : ℕ)
    → i < length xs
    → byte_at (set xs i b) j ≡ (if i == j then b else byte_at xs j)
byte_at-set [] i j b h = absurd (omega arith)
byte_at-set (x ∷ xs) zero zero b h = refl
byte_at-set (x ∷ xs) zero (suc j) b h = ground arith
byte_at-set (x ∷ xs) (suc i) zero b h = ground arith
byte_at-set (x ∷ xs) (suc i) (suc j) b h = ground (arith, byte_at-set xs i j b (omega arith))

read_from_append :
    (xs : List ℕ) (start m n : ℕ)
    → read_from xs start (m + n) ≡ read_from xs start m ++ read_from xs (start + m) n
unfolding read_from
read_from_append xs start zero n = ground arith
read_from_append xs start (suc m) n =
    ap (read_from xs start) longer
    ∙ ap (λ ys. byte_at xs (start % length xs) ∷ ys)
        (read_from_append xs (start + 1) m n
          ∙ ap (λ k. read_from xs (start + 1) m ++ read_from xs k n) later)
  where
    longer : suc m + n ≡ suc (m + n)
    longer = omega arith

    later : start + 1 + m ≡ start + suc m
    later = omega arith

-- A turn around the ring is the same place, and less than one is another.
mod_differs : (i j n : ℕ) → i < j → j < i + n → (j % n) ≢ (i % n)
mod_differs i j n lo hi same = elim (Bool-cases (ltb (i % n + (j - i)) n)) [
  | inl h ↦ absurd (
      ground
        (arith, turn, mod-lt i {m = n} (omega arith), mod-eq_of_lt {n = i % n + (j - i)} {m = n}))
  | inr h ↦ absurd (
      ground (
        arith,
        turn,
        mod-lt i {m = n} (omega arith),
        mod-eq-sub-mod {n = i % n + (j - i)} {m = n},
        mod-eq_of_lt {n = i % n + (j - i) - n} {m = n},
      ))
]
  where
    turn : (i % n + (j - i)) % n ≡ j % n
    turn = mod-add-mod i n (j - i) ∙ ap (λ x. x % n) (omega arith)

length-write_from :
    (xs : List ℕ) (start : ℕ) (bs : List ℕ) → length (write_from xs start bs) ≡ length xs
unfolding write_from
length-write_from xs start [] = refl
length-write_from xs start (b ∷ bs) =
    length-write_from (set xs (start % length xs) b) (start + 1) bs
    ∙ length-set xs (start % length xs) b

-- A write at an index outside the range, around the ring, leaves the range.
read_from-set :
    (xs : List ℕ) (start n i b : ℕ)
    → start + n ≤ i
    → i < start + length xs
    → read_from (set xs (i % length xs) b) start n ≡ read_from xs start n
unfolding read_from
read_from-set xs start zero i b lo hi = refl
read_from-set xs start (suc n) i b lo hi = ground (
  arith,
  length-set xs (i % length xs) b,
  mod-lt i {m = length xs} (omega arith),
  byte_at-set xs (i % length xs) (start % length xs) b,
  mod_differs start i (length xs) (omega arith) hi,
  read_from-set xs (start + 1) n i b (omega arith) (omega arith),
)

read_from_written :
    (xs : List ℕ) (i b : ℕ) → 0 < length xs → read_from (set xs (i % length xs) b) i 1 ≡ b ∷ []
unfolding read_from
read_from_written xs i b h = ground (
  arith,
  length-set xs (i % length xs) b,
  mod-lt i {m = length xs} h,
  byte_at-set xs (i % length xs) (i % length xs) b,
)

-- The bytes that are written behind a range are read behind it.
read_from-write_from :
    (bs xs : List ℕ) (start n : ℕ)
    → n + length bs ≤ length xs
    → read_from (write_from xs (start + n) bs) start (n + length bs) ≡ read_from xs start n ++ bs
unfolding write_from
read_from-write_from [] xs start n h =
    ap (read_from xs start) none_more ∙ sym (append-nil (read_from xs start n))
  where
    none_more : n + 0 ≡ n
    none_more = omega arith
read_from-write_from (b ∷ bs) xs start n h =
    ap (λ k. read_from (write_from xs' k bs) start (n + suc (length bs))) next
    ∙ ap (read_from (write_from xs' (start + (n + 1)) bs) start) longer
    ∙ read_from-write_from bs xs' start (n + 1) room
    ∙ ap (λ ys. ys ++ bs) (read_from_append xs' start n 1 ∙ first_read)
    ∙ append_assoc (read_from xs start n) (b ∷ []) bs
  where
    xs' : List ℕ
    xs' = set xs ((start + n) % length xs) b

    next : start + n + 1 ≡ start + (n + 1)
    next = omega arith

    longer : n + suc (length bs) ≡ n + 1 + length bs
    longer = omega arith

    room : n + 1 + length bs ≤ length xs'
    room = omega (arith, length-set xs ((start + n) % length xs) b)

    first_read :
        read_from xs' start n ++ read_from xs' (start + n) 1 ≡ read_from xs start n ++ b ∷ []
    first_read =
        ap (λ ys. ys ++ read_from xs' (start + n) 1)
          (read_from-set xs start n (start + n) b (omega arith) (omega arith))
        ∙ ap (λ ys. read_from xs start n ++ ys) (read_from_written xs (start + n) b (omega arith))

-- A start can be counted from any turn of the ring.
read_from_turn :
    (xs : List ℕ) (start n : ℕ) → read_from xs (start % length xs) n ≡ read_from xs start n
unfolding read_from
read_from_turn xs start zero = refl
read_from_turn xs start (suc n) =
    ap (λ k. byte_at xs k ∷ read_from xs (start % length xs + 1) n) (mod-mod start (length xs))
    ∙ ap (λ ys. byte_at xs (start % length xs) ∷ ys)
        (sym (read_from_turn xs (start % length xs + 1) n)
          ∙ ap (λ k. read_from xs k n) (mod-add-mod start (length xs) 1)
          ∙ read_from_turn xs (start + 1) n)

length-read_from : (xs : List ℕ) (start n : ℕ) → length (read_from xs start n) ≡ n
unfolding read_from
length-read_from xs start zero = refl
length-read_from xs start (suc n) = ap suc (length-read_from xs (start + 1) n)

-- What `push` does: the part of the input that fits is appended.
pub record Pushed (r : ByteRing) (input : List ℕ) (count : ℕ) (r' : ByteRing) : Type 0 where
  pub taken : count ≡ min (length input) (available r)
  pub appended : contents r' ≡ contents r ++ take count input
  pub same_size : length r'.bytes ≡ length r.bytes
  pub valid : IsValid r'

pub push-Pushed :
    (r : ByteRing) (input : List ℕ) → IsValid r → Pushed r input (push r input).0 (push r input).1
unfolding push available contents
push-Pushed r input v = record {
  taken = refl;
  appended =
      ap
        (λ k.
          read_from (write_from r.bytes (r.head + r.length) (take count input)) r.head
            (r.length + k))
        (sym exact)
      ∙ read_from-write_from (take count input) r.bytes r.head r.length
          (omega (arith, exact, v.fits));
  same_size = length-write_from r.bytes (r.head + r.length) (take count input);
  valid = record { fits = omega (arith, size, v.fits); inside = omega (arith, size, v.inside) };
}
  where
    count : ℕ
    count = min (length input) (length r.bytes - r.length)

    exact : length (take count input) ≡ count
    exact = omega (arith, length-take count input)

    size : length (write_from r.bytes (r.head + r.length) (take count input)) ≡ length r.bytes
    size = length-write_from r.bytes (r.head + r.length) (take count input)

-- What `pop` does: the oldest bytes are removed, as many as the output holds.
pub record Popped (r : ByteRing) (size : ℕ) (output : List ℕ) (r' : ByteRing) : Type 0 where
  pub count : length output ≡ min size r.length
  pub removed : output ++ contents r' ≡ contents r
  pub same_size : length r'.bytes ≡ length r.bytes
  pub valid : IsValid r'

-- `pop` on a valid ring returns the oldest bytes, as many as there are and the output holds,
-- leaves the others in order, and keeps the ring valid and its size.
pub pop-Popped : (r : ByteRing) (size : ℕ) → IsValid r → Popped r size (pop r size).0 (pop r size).1
unfolding pop contents
pop-Popped r size v = record {
  count = length-read_from r.bytes r.head (min size r.length);
  removed = rw present (parts ∙ ap (read_from r.bytes r.head) total);
  same_size = refl;
  valid = record {
    fits = omega (arith, v.fits);
    inside = rw present (mod-lt (r.head + count) {m = length r.bytes} (omega (arith, v.inside)));
  };
}
  where
    count : ℕ
    count = min size r.length

    present : (length r.bytes == 0) ≡ false
    present = ground (arith, v.inside)

    total : count + (r.length - count) ≡ r.length
    total = omega arith

    parts :
        read_from r.bytes r.head count
          ++ read_from r.bytes ((r.head + count) % length r.bytes) (r.length - count)
        ≡ read_from r.bytes r.head (count + (r.length - count))
    parts =
        ap (λ ys. read_from r.bytes r.head count ++ ys)
          (read_from_turn r.bytes (r.head + count) (r.length - count))
        ∙ sym (read_from_append r.bytes r.head count (r.length - count))
