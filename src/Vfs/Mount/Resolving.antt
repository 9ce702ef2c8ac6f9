-- ===== src/Vfs/Mount/Resolving.antt =====
-- `resolve` and the mounted prefixes of a path.
use slopos.Base.{
  ℕ, zero, suc, ◌≤◌, ◌≡◌, refl, true, false, Bool, List, [], ◌∷◌, arith, Result, ok, err, none,
  some, inl, inr, ◌⊎◌, get_elem?, length, take, filter, leb, Option, sym, if◌then◌else◌,
  length-take, Bool-cases, subst, ap,
}
use slopos.Vfs.{VfsError, mount_not_found}
use slopos.Vfs.Path.{AbsolutePath, components}
use slopos.Vfs.Path.Names.{IsNormal, length-components}
use slopos.Vfs.Mount.{
  MountEntry, MountTable, MountResolution, resolve, candidates, flatten, max_from, max_by_count,
  mount_matches,
}
use slopos.Vfs.Mount.Matching.{mount_matches_iff}
use slopos.Vfs.Mount.Table.{Mounted, IsValid}

-- `e` is in the list, at some place.
abbrev In : MountEntry → List MountEntry → Type 0
In e [] = ⊥
In e (d ∷ es) = (e ≡ d) ⊎ In e es

-- The first components of `path` are those of `cs`.
abbrev pub IsPrefixOf : List (List ℕ) → AbsolutePath → Type 0
IsPrefixOf cs path = cs ≡ take (length cs) (components path)

In-flatten :
    (es : List (Option MountEntry)) (i : ℕ) (e : MountEntry)
    → get_elem? es i ≡ some (some e)
    → In e (flatten es)
unfolding flatten
In-flatten [] i e h = absurd (cc)
In-flatten (none ∷ es) zero e h = absurd (cc)
In-flatten (none ∷ es) (suc i) e h = In-flatten es i e h
In-flatten (some d ∷ es) zero e h = inl (ground arith)
In-flatten (some d ∷ es) (suc i) e h = inr (In-flatten es i e h)

flatten-In :
    (es : List (Option MountEntry)) (e : MountEntry)
    → In e (flatten es)
    → (i : ℕ) × (get_elem? es i ≡ some (some e))
unfolding flatten
flatten-In [] e h = absurd h
flatten-In (none ∷ es) e h = let (i, f) = flatten-In es e h in (suc i, f)
flatten-In (some d ∷ es) e (inl h) = (0, rw h)
flatten-In (some d ∷ es) e (inr h) = let (i, f) = flatten-In es e h in (suc i, f)

In-filter :
    (p : MountEntry → Bool) (es : List MountEntry) (e : MountEntry)
    → In e es
    → p e ≡ true
    → In e (filter p es)
In-filter p [] e h t = h
In-filter p (d ∷ es) e h t = ground (arith, In-filter p es e)

filter-In :
    (p : MountEntry → Bool) (es : List MountEntry) (e : MountEntry)
    → In e (filter p es)
    → In e es × (p e ≡ true)
filter-In p [] e h = absurd h
filter-In p (d ∷ es) e h = ground (arith, filter-In p es e)

max_from_up :
    (best d : MountEntry) (es : List MountEntry)
    → leb best.component_count d.component_count ≡ true
    → max_from best (d ∷ es) ≡ max_from d es
unfolding max_from
max_from_up best d es h = ap (λ b. max_from (if b then d else best) es) h

max_from_down :
    (best d : MountEntry) (es : List MountEntry)
    → leb best.component_count d.component_count ≡ false
    → max_from best (d ∷ es) ≡ max_from best es
unfolding max_from
max_from_down best d es h = ap (λ b. max_from (if b then d else best) es) h

max_from_nil : (best : MountEntry) → max_from best [] ≡ best
unfolding max_from
max_from_nil best = refl

-- The fold returns an entry of the list that no entry exceeds.
max_from-In : (best : MountEntry) (es : List MountEntry) → In (max_from best es) (best ∷ es)
max_from-In best [] = inl (max_from_nil best)
max_from-In best (d ∷ es) = elim (Bool-cases (leb best.component_count d.component_count)) [
  | inl up ↦ ground (arith, max_from_up best d es up, max_from-In d es)
  | inr down ↦ ground (arith, max_from_down best d es down, max_from-In best es)
]

le-max_from :
    (best : MountEntry) (es : List MountEntry) (e : MountEntry)
    → In e (best ∷ es)
    → e.component_count ≤ (max_from best es).component_count
le-max_from best [] e (inl h) = ground (arith, max_from_nil best)
le-max_from best [] e (inr h) = absurd h
le-max_from best (d ∷ es) e h = elim (Bool-cases (leb best.component_count d.component_count)) [
  | inl up ↦
      ground (arith, max_from_up best d es up, le-max_from d es e, le-max_from d es d (inl refl))
  | inr down ↦ ground (
    arith,
    max_from_down best d es down,
    le-max_from best es e,
    le-max_from best es best (inl refl),
  )
]

module _ (t : MountTable) (path : AbsolutePath) (v : IsValid t) (n : IsNormal path) where
  -- The candidates are the entries whose path is a prefix.
  candidate_of :
      (cs : List (List ℕ)) (id : ℕ)
      → Mounted t cs id
      → IsPrefixOf cs path
      → (e : MountEntry) × In e (candidates t path)
        × (e.component_count ≡ length cs)
        × (e.filesystem_id ≡ id)
  unfolding candidates
  candidate_of cs id m p =
      let room : m.entry.component_count ≤ path.component_count = omega (
        arith,
        m.stores.counted,
        ap length p,
        length-take (length cs) (components path),
        length-components path n,
      ) in
      let matches = (mount_matches_iff m.entry cs path m.stores n room).1 p in
      (
        m.entry,
        In-filter (λ e. mount_matches e path) _ m.entry
            (In-filter (λ e. leb e.component_count path.component_count) (flatten t.entries) m.entry
              (In-flatten t.entries m.place m.entry m.found) (ground arith))
            matches,
        m.stores.counted,
        m.on,
      )

  of_candidate :
      (e : MountEntry)
      → In e (candidates t path)
      → (cs : List (List ℕ)) × Mounted t cs e.filesystem_id
        × IsPrefixOf cs path
        × (e.component_count ≡ length cs)
  unfolding candidates
  of_candidate e h =
      let (kept, matches) = filter-In (λ e. mount_matches e path) _ e h in
      let (old, low) =
        filter-In (λ e. leb e.component_count path.component_count) (flatten t.entries) e kept in
      let (i, f) = flatten-In t.entries e old in
      let (cs, s) = v.stored i e f in
      (
        cs,
        record { place = i; entry = e; found = f; stores = s; on = refl },
        (mount_matches_iff e cs path s n (ground arith)).0 matches,
        s.counted,
      )

-- The longest mounted prefix of a path, and the file system that it is mounted on.
pub record Longest (t : MountTable) (path : AbsolutePath) (r : MountResolution) : Type 0 where
  pub prefix : List (List ℕ)
  pub mounted : Mounted t prefix r.filesystem_id
  pub is_prefix : IsPrefixOf prefix path
  pub matched : r.matched_components ≡ length prefix
  pub longest :
      (cs : List (List ℕ)) (id : ℕ)
      → Mounted t cs id
      → IsPrefixOf cs path
      → length cs ≤ length prefix

abbrev pub Resolves : MountTable → AbsolutePath → Result VfsError MountResolution → Type 0
Resolves t path (ok r) = Longest t path r
Resolves t path (err e) =
    (e ≡ mount_not_found)
    × ((cs : List (List ℕ)) (id : ℕ) → Mounted t cs id → IsPrefixOf cs path → ⊥)

-- `resolve` on a valid table returns the longest mounted prefix of the path, with its file system
-- and its number of components, and fails, with MountNotFound, only if no prefix is mounted.
pub resolve-Resolves :
    (t : MountTable) (path : AbsolutePath)
    → IsValid t
    → IsNormal path
    → Resolves t path (resolve t path)
unfolding resolve max_by_count
resolve-Resolves t path v n = by_list (candidates t path) refl
  where
    longest_of :
        (b : MountEntry) (es : List MountEntry)
        → candidates t path ≡ b ∷ es
        → Longest t path (record {
          filesystem_id = (max_from b es).filesystem_id;
          matched_components = (max_from b es).component_count;
        })
    longest_of b es e =
        let (cs, m, p, c) =
          of_candidate t path v n (max_from b es)
            (subst (In (max_from b es)) (sym e) (max_from-In b es)) in
        record {
          prefix = cs;
          mounted = m;
          is_prefix = p;
          matched = c;
          longest = λ ds id m' p'.
              let (x, i, k, _) = candidate_of t path v n ds id m' p' in
              omega (arith, c, k, le-max_from b es x (subst (In x) e i));
        }

    by_list : (es : List MountEntry) → candidates t path ≡ es → Resolves t path (resolve t path)
    by_list [] e =
        rw (e, max_by_count)
          (
            refl,
            λ cs id m p. let (x, i, _, _) = candidate_of t path v n cs id m p in subst (In x) e i,
          )
    by_list (b ∷ es) e = rw (e, max_by_count) (longest_of b es e)
