-- ===== src/Process/Scheduler.antt =====
-- crates/process/src/lib.rs: the questions that the scheduler asks of a process table.
use slopos.Base.{
  ℕ, false, Bool, ◌&&◌, Option, some, none, List, [], ◌∷◌, ltb, leb, ◌==◌, filter, count, length,
  map, if◌then◌else◌,
}
use slopos.Process.{ProcessSnapshot}
use slopos.Process.Table.{
  ProcessSlot, ProcessTable, is_live, is_schedulable, is_exited, snapshot_of,
}

-- Iterator::min
unfoldable pub min_of : List ℕ → Option ℕ
min_of [] = none
min_of (n ∷ ns) = elim (min_of ns) [ none ↦ some n | some m ↦ some (if leb n m then n else m) ]

-- Option::or_else
abbrev pub or_else : Option ℕ → Option ℕ → Option ℕ
or_else none other = other
or_else (some n) other = some n

abbrev pub is_schedulable_after : ℕ → ProcessSlot → Bool
is_schedulable_after pid s = is_schedulable s && ltb pid s.pid

unfoldable pub next_schedulable_after : ProcessTable → ℕ → Option ℕ
unfolding min_of
next_schedulable_after t pid =
    or_else (min_of (map (λ (s : ProcessSlot). s.pid) (filter (is_schedulable_after pid) t.slots)))
      (min_of (map (λ (s : ProcessSlot). s.pid) (filter is_schedulable t.slots)))

abbrev pub is_parent : ℕ → Option ℕ → Bool
is_parent parent none = false
is_parent parent (some p) = p == parent

abbrev pub is_child_of : ℕ → ProcessSlot → Bool
is_child_of parent s = is_live s && is_parent parent s.parent

unfoldable pub child_count : ProcessTable → ℕ → ℕ
child_count t parent = count (is_child_of parent) t.slots

abbrev pub is_exited_child_of : ℕ → ProcessSlot → Bool
is_exited_child_of parent s = is_parent parent s.parent && is_exited s

-- Iterator::filter_map
abbrev pub snapshots : List ProcessSlot → List ProcessSnapshot
snapshots [] = []
snapshots (s ∷ xs) = elim (snapshot_of s) [
  | none ↦ snapshots xs
  | some shown ↦ shown ∷ snapshots xs
]

-- Iterator::min_by_key, which keeps the first of several smallest.
unfoldable pub min_by_pid : List ProcessSnapshot → Option ProcessSnapshot
min_by_pid [] = none
min_by_pid (x ∷ xs) = elim (min_by_pid xs) [
  | none ↦ some x
  | some y ↦ some (if leb x.pid y.pid then x else y)
]

unfoldable pub first_exited_child : ProcessTable → ℕ → Option ProcessSnapshot
unfolding min_by_pid snapshot_of
first_exited_child t parent = min_by_pid (snapshots (filter (is_exited_child_of parent) t.slots))

unfoldable pub len : ProcessTable → ℕ
len t = t.count

unfoldable pub is_empty : ProcessTable → Bool
is_empty t = t.count == 0

unfoldable pub capacity : ProcessTable → ℕ
capacity t = length t.slots
