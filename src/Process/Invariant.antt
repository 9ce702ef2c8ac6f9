-- ===== src/Process/Invariant.antt =====
-- The invariant of the process table.
use slopos.Base.{
  ℕ, [], ◌∷◌, zero, suc, ◌+◌, ◌≤◌, ◌<◌, ◌≡◌, refl, true, some, get_elem?, set, count, count-set,
  All, All-set, All-get_elem?, All-replicate, arith, u32_mod, get_elem?-replicate, if◌then◌else◌,
  replicate, List, sym, ◌-◌,
}
use slopos.Process.Table.{ProcessSlot, ProcessTable, new, is_live, is_exited, empty_slot, new_slot}
use slopos.Process.Table.Lookup.{Unique, Unique-set}
use slopos.Process.Effects.{perform-Effect}
use slopos.Process.Calls.{Call, perform, target, Effect, stays, changes, adds, removes, has_status}

-- A live slot has a number that was handed out; a slot has an exit status when it has exited.
pub record SlotIsValid (next : ℕ) (s : ProcessSlot) : Type 0 where
  pub numbered : is_live s ≡ true → (1 ≤ s.pid) × (s.pid < next)
  pub settled : is_exited s ≡ has_status s

pub record IsValid (t : ProcessTable) : Type 0 where
  pub unique : Unique t.slots
  pub slots_valid : All (SlotIsValid t.next_pid) t.slots
  pub counted : t.count ≡ count is_live t.slots
  pub first : 1 ≤ t.next_pid
  pub fits : t.next_pid < u32_mod

kept-SlotIsValid :
    (n m : ℕ) (xs : List ProcessSlot) → n ≤ m → All (SlotIsValid n) xs → All (SlotIsValid m) xs
kept-SlotIsValid n m [] le v = tt
kept-SlotIsValid n m (x ∷ xs) le (v, vs) = (
  record {
    numbered = λ live. let (a, b) = v.numbered live in (a, omega arith);
    settled = v.settled;
  },
  kept-SlotIsValid n m xs le vs,
)

pub write-IsValid :
    (t : ProcessTable) (i next total : ℕ) (old new : ProcessSlot)
    → IsValid t
    → get_elem? t.slots i ≡ some old
    → t.next_pid ≤ next
    → next < u32_mod
    → SlotIsValid next new
    → ((j : ℕ) (b : ProcessSlot)
        → get_elem? t.slots j ≡ some b
        → is_live b ≡ true
        → b.pid ≡ new.pid
        → is_live new ≡ true
        → j ≡ i)
    → total + (if is_live old then 1 else 0) ≡ t.count + (if is_live new then 1 else 0)
    → IsValid (record t { slots = set t.slots i new; next_pid = next; count = total })
write-IsValid t i next total old new v at le fits valid only sum = record {
  unique = Unique-set t.slots i old new v.unique at only;
  slots_valid =
      All-set (SlotIsValid next) t.slots i new
        (kept-SlotIsValid t.next_pid next t.slots le v.slots_valid) valid;
  counted = omega (arith, v.counted, count-set is_live t.slots i old new at);
  first = omega (arith, v.first);
  fits = fits;
}

no_live : (n fds : ℕ) → count is_live (replicate n (empty_slot fds)) ≡ 0
unfolding empty_slot
no_live zero fds = refl
no_live (suc n) fds = omega (arith, no_live n fds)

pub new-IsValid : (n fds : ℕ) → IsValid (new n fds)
unfolding new empty_slot
new-IsValid n fds = record {
  unique = record {
    places =
        λ i j a b ea eb la lb e. absurd (ground (arith, get_elem?-replicate n i (empty_slot fds)));
  };
  slots_valid =
      All-replicate (SlotIsValid 1) n (empty_slot fds)
        (record { numbered = λ live. absurd (ground arith); settled = refl });
  counted = sym (no_live n fds);
  first = omega arith;
  fits = omega arith;
}

pub Effect-IsValid :
    (t : ProcessTable) (pid : ℕ) (t' : ProcessTable) → IsValid t → Effect t pid t' → IsValid t'
unfolding new_slot empty_slot
Effect-IsValid t pid _ v stays = v
Effect-IsValid t pid _ v (changes i old new at p c) =
    let before = All-get_elem? (SlotIsValid t.next_pid) t.slots i v.slots_valid at in
    write-IsValid t i t.next_pid t.count old new v at (omega arith) v.fits
      (record {
        numbered = λ live. ground (arith, before.numbered);
        settled = c.settles before.settled;
      })
      (λ j b e live same now. v.unique.places j i b old e at live (ground arith) (ground arith))
      (ground arith)
Effect-IsValid t pid _ v (adds i old parent image at free fresh fits valid lives) =
    write-IsValid t i (t.next_pid + 1) (t.count + 1) old (new_slot t parent image) v at
      (omega arith) fits (record { numbered = λ live. (v.first, omega arith); settled = refl })
      (λ j b e live same now. absurd (
        ground
          (arith, (All-get_elem? (SlotIsValid t.next_pid) t.slots j v.slots_valid e).numbered)))
      (ground arith)
Effect-IsValid t pid _ v (removes i old at p e) =
    write-IsValid t i t.next_pid (t.count - 1) old (empty_slot t.fd_capacity) v at (omega arith)
      v.fits (record { numbered = λ live. absurd (ground arith); settled = refl })
      (λ j b f live same now. absurd (ground arith))
      (ground (arith, v.counted, count-set is_live t.slots i old (empty_slot t.fd_capacity) at))

-- Every call keeps the table valid: no two live slots share a number, each number is between 1 and
-- the next one, which fits a u32, the count is that of the live slots, and a slot has an exit
-- status exactly when it has exited.
pub perform-IsValid : (t : ProcessTable) (call : Call) → IsValid t → IsValid (perform t call)
perform-IsValid t call v =
    Effect-IsValid t (target t call) (perform t call) v (perform-Effect t call)
