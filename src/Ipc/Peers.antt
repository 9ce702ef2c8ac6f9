-- ===== src/Ipc/Peers.antt =====
-- The two ends of a connection in the socket table, and writes that leave them paired.
use slopos.Base.{
  ℕ, ◌≡◌, ◌≢◌, true, false, some, none, List, get_elem?, set, arith, inl, inr, Option-cases,
  Bool-cases, get_elem?-set, get_elem?_bound, length-set, if◌then◌else◌, ◌==◌,
}
use slopos.Ipc.Sockets.{SocketSlot, is_connected}

-- The peer of a connected slot is another slot, which is connected and names it as its peer.
pub record Linked (xs : List SocketSlot) (i : ℕ) (s : SocketSlot) (p : ℕ) : Type 0 where
  pub other : SocketSlot
  pub at : get_elem? xs p ≡ some other
  pub back : other.peer ≡ some i
  pub up : is_connected other ≡ true
  pub here : is_connected s ≡ true
  pub apart : p ≢ i

pub record Symmetric (xs : List SocketSlot) : Type 0 where
  pub linked :
      (i p : ℕ) (s : SocketSlot) → get_elem? xs i ≡ some s → s.peer ≡ some p → Linked xs i s p

module _ (xs : List SocketSlot) (i : ℕ) (old new : SocketSlot) (v : Symmetric xs)
    (at : get_elem? xs i ≡ some old) where
  read : (j : ℕ) → get_elem? (set xs i new) j ≡ (if i == j then some new else get_elem? xs j)
  read j = ground (arith, get_elem?-set xs i j new, get_elem?_bound xs i at)

  -- A slot that is not connected has no peer.
  pub loose : is_connected old ≡ false → old.peer ≡ none
  loose off = elim (Option-cases old.peer) [
    | inl e ↦ e
    | inr (p, e) ↦ absurd (ground (arith, (v.linked i p old at e).here))
  ]

  -- A slot without a peer, and what takes its place has none either.
  pub Symmetric-loose : old.peer ≡ none → new.peer ≡ none → Symmetric (set xs i new)
  Symmetric-loose off alone = record { linked = kept }
    where
      kept :
          (j p : ℕ) (s : SocketSlot)
          → get_elem? (set xs i new) j ≡ some s
          → s.peer ≡ some p
          → Linked (set xs i new) j s p
      kept j p s e h =
          let l = v.linked j p s (ground (arith, read j)) h in
          record {
            other = l.other;
            at = ground (arith, read p, l.at, l.back);
            back = l.back;
            up = l.up;
            here = l.here;
            apart = l.apart;
          }

  -- What takes the place has the same peer and is connected if the slot was.
  pub Symmetric-same :
      is_connected new ≡ is_connected old → new.peer ≡ old.peer → Symmetric (set xs i new)
  Symmetric-same up same = record { linked = kept }
    where
      kept :
          (j p : ℕ) (s : SocketSlot)
          → get_elem? (set xs i new) j ≡ some s
          → s.peer ≡ some p
          → Linked (set xs i new) j s p
      kept j p s e h = elim (Bool-cases (i == j)) [
        | inl q ↦
            let l = v.linked i p old at (ground (arith, read j)) in
            record {
              other = l.other;
              at = ground (arith, read p, l.at, l.apart);
              back = ground (arith, l.back);
              up = l.up;
              here = ground (arith, read j, l.here);
              apart = ground (arith, l.apart);
            }
        | inr q ↦
            let l = v.linked j p s (ground (arith, read j)) h in
            elim (Bool-cases (i == p)) [
              | inl r ↦ record {
                other = new;
                at = ground (arith, read p);
                back = ground (arith, l.at, l.back);
                up = ground (arith, l.at, l.up);
                here = l.here;
                apart = l.apart;
              }
              | inr r ↦ record {
                other = l.other;
                at = ground (arith, read p, l.at);
                back = l.back;
                up = l.up;
                here = l.here;
                apart = l.apart;
              }
            ]
      ]

-- Two slots are rewritten.
module _ (xs : List SocketSlot) (i k : ℕ) (a b new_a new_b : SocketSlot) (v : Symmetric xs)
    (at_a : get_elem? xs i ≡ some a) (at_b : get_elem? xs k ≡ some b) (apart : i ≢ k) where
  read_both :
      (j : ℕ)
      → get_elem? (set (set xs i new_a) k new_b) j
        ≡ (if k == j then some new_b else if i == j then some new_a else get_elem? xs j)
  read_both j = ground (
    arith,
    read xs i a new_a v at_a j,
    get_elem?-set (set xs i new_a) k j new_b,
    length-set xs i new_a,
    get_elem?_bound xs k at_b,
    get_elem?_bound xs i at_a,
  )

  -- Two slots without peers are linked.
  pub Symmetric-link :
      a.peer ≡ none
      → b.peer ≡ none
      → new_a.peer ≡ some k
      → new_b.peer ≡ some i
      → is_connected new_a ≡ true
      → is_connected new_b ≡ true
      → Symmetric (set (set xs i new_a) k new_b)
  Symmetric-link pa pb na nb ca cb = record { linked = kept }
    where
      kept :
          (j p : ℕ) (s : SocketSlot)
          → get_elem? (set (set xs i new_a) k new_b) j ≡ some s
          → s.peer ≡ some p
          → Linked (set (set xs i new_a) k new_b) j s p
      kept j p s e h = elim (Bool-cases (k == j)) [
        | inl q ↦ record {
          other = new_a;
          at = ground (arith, read_both j, read_both p);
          back = ground arith;
          up = ca;
          here = ground (arith, read_both j);
          apart = ground (arith, read_both j);
        }
        | inr q ↦ elim (Bool-cases (i == j)) [
          | inl r ↦ record {
            other = new_b;
            at = ground (arith, read_both j, read_both p);
            back = ground arith;
            up = cb;
            here = ground (arith, read_both j);
            apart = ground (arith, read_both j);
          }
          | inr r ↦
              let l = v.linked j p s (ground (arith, read_both j)) h in
              record {
                other = l.other;
                at = ground (arith, read_both p, l.at, l.back);
                back = l.back;
                up = l.up;
                here = l.here;
                apart = l.apart;
              }
        ]
      ]

  -- A connection is cut at both ends.
  pub Symmetric-cut :
      a.peer ≡ some k
      → b.peer ≡ some i
      → new_a.peer ≡ none
      → new_b.peer ≡ none
      → Symmetric (set (set xs i new_a) k new_b)
  Symmetric-cut pa pb na nb = record { linked = kept }
    where
      kept :
          (j p : ℕ) (s : SocketSlot)
          → get_elem? (set (set xs i new_a) k new_b) j ≡ some s
          → s.peer ≡ some p
          → Linked (set (set xs i new_a) k new_b) j s p
      kept j p s e h =
          let l = v.linked j p s (ground (arith, read_both j)) h in
          record {
            other = l.other;
            at = ground (arith, read_both p, read_both j, l.at, l.back);
            back = l.back;
            up = l.up;
            here = l.here;
            apart = l.apart;
          }
