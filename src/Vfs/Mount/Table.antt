-- ===== src/Vfs/Mount/Table.antt =====
-- `MountTable` as a set of mounted paths.
use slopos.Base.{
  ℕ, suc, zero, ◌≡◌, refl, Bool, true, false, not, List, [], ◌∷◌, arith, count, get_elem?, none,
  some, Option, inl, inr, any, get_elem?-replicate, Bool-cases, replicate, sym, ◌∙◌,
}
use slopos.Vfs.Mount.Matching.{join-injective, Stores}
use slopos.Vfs.Mount.{MountEntry, MountTable, flatten, is_none, new}
use slopos.Vfs.Mount.Canonical.{text_of}

-- The path with these components is mounted on this file system.
pub record Mounted (t : MountTable) (cs : List (List ℕ)) (id : ℕ) : Type 0 where
  pub place : ℕ
  pub entry : MountEntry
  pub found : get_elem? t.entries place ≡ some (some entry)
  pub stores : Stores entry cs
  pub on : entry.filesystem_id ≡ id

-- Every entry stores some path, no path is stored twice, and the count is that of the entries.
pub record IsValid (t : MountTable) : Type 0 where
  pub stored :
      (i : ℕ) (e : MountEntry)
      → get_elem? t.entries i ≡ some (some e)
      → (cs : List (List ℕ)) × Stores e cs
  pub distinct :
      (i j : ℕ) (d e : MountEntry)
      → get_elem? t.entries i ≡ some (some d)
      → get_elem? t.entries j ≡ some (some e)
      → text_of d.text ≡ text_of e.text
      → i ≡ j
  pub counted : t.count ≡ count (λ e. not (is_none e)) t.entries

pub any-flatten-false :
    (p : MountEntry → Bool) (es : List (Option MountEntry)) (i : ℕ) (e : MountEntry)
    → any p (flatten es) ≡ false
    → get_elem? es i ≡ some (some e)
    → p e ≡ false
unfolding flatten
any-flatten-false p [] i e h f = cc
any-flatten-false p (none ∷ es) zero e h f = cc
any-flatten-false p (none ∷ es) (suc i) e h f = any-flatten-false p es i e h f
any-flatten-false p (some x ∷ es) zero e h f = ground arith
any-flatten-false p (some x ∷ es) (suc i) e h f = any-flatten-false p es i e (ground arith) f

pub any-flatten-true :
    (p : MountEntry → Bool) (es : List (Option MountEntry))
    → any p (flatten es) ≡ true
    → (i : ℕ) × (e : MountEntry) × (get_elem? es i ≡ some (some e)) × (p e ≡ true)
unfolding flatten
any-flatten-true p [] h = absurd (cc)
any-flatten-true p (none ∷ es) h = let (i, e, f, t) = any-flatten-true p es h in (suc i, e, f, t)
any-flatten-true p (some x ∷ es) h = elim (Bool-cases (p x)) [
  | inl t ↦ (0, x, refl, t)
  | inr n ↦ let (i, e, f, t) = any-flatten-true p es (ground arith) in (suc i, e, f, t)
]

-- The stored text determines the components.
pub same_components :
    (d e : MountEntry) (cs ds : List (List ℕ))
    → Stores d cs
    → Stores e ds
    → text_of d.text ≡ text_of e.text
    → cs ≡ ds
same_components d e cs ds s s' h =
    join-injective cs ds s.names s'.names (ground (arith, s.text, s'.text, h))

-- No path is mounted on two file systems.
pub Mounted-once :
    (t : MountTable) (cs : List (List ℕ)) (i j : ℕ)
    → IsValid t
    → Mounted t cs i
    → Mounted t cs j
    → i ≡ j
Mounted-once t cs i j v m n =
    let same : m.place ≡ n.place =
      v.distinct m.place n.place m.entry n.entry m.found n.found
        (m.stores.text ∙ sym n.stores.text) in
    ground (arith, m.found, n.found, m.on, n.on, same)

pub new-IsValid : (n : ℕ) → IsValid (new n)
unfolding new
new-IsValid n = record {
  stored = λ i e h. absurd (ground (arith, get_elem?-replicate {A = Option MountEntry} n i none));
  distinct = λ i j d e h k same.
      absurd (ground (arith, get_elem?-replicate {A = Option MountEntry} n i none));
  counted = sym (none_counted n);
}
  where
    none_counted :
        (n : ℕ) → count (λ e. not (is_none e)) (replicate {A = Option MountEntry} n none) ≡ 0
    none_counted zero = refl
    none_counted (suc n) = omega (arith, none_counted n)
