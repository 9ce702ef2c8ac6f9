-- ===== src/Vfs/Mount/Mounting.antt =====
-- The outcomes of `mount` on a valid table.
use slopos.Base.{
  ℕ, ◌<◌, ◌≡◌, refl, true, false, List, arith, Result, ok, err, none, some, inl, inr, get_elem?,
  length, any, position-FirstAt, get_elem?-some, position-none, Option-cases, bytes_eq→eq,
  Bool-cases, position, Option, subst,
}
use slopos.Vfs.Mount.{
  PathText, MountEntry, MountTable, mount, mount_slot, place_entry, entry_of, flatten, is_none,
  same_text, canonical_path,
}
use native.Mathlib.Decide.{dec_lt}
use slopos.Vfs.{VfsError, mount_path_too_long, mount_table_full, duplicate_mount}
use slopos.Vfs.Path.{AbsolutePath, components}
use slopos.Vfs.Path.Names.{IsNormal}
use slopos.Vfs.Path.Render.{render}
use slopos.Vfs.Mount.Canonical.{text_of, IsText, canonical_path_lem}
use slopos.Vfs.Mount.Matching.{Stores}
use slopos.Vfs.Mount.Growth.{Added, stores_new, grown, grown-Added}
use slopos.Vfs.Mount.Table.{Mounted, IsValid, any-flatten-true, same_components}

-- The outcomes of `mount`.
pub data MountOutcome (t : MountTable) (cs : List (List ℕ)) (id : ℕ)
    : Result VfsError (Unit {0}) × MountTable → Type 0 where
  added : (t' : MountTable) → Added t t' cs id → MountOutcome t cs id (ok tt, t')
  too_long : 256 < length (render cs) → MountOutcome t cs id (err mount_path_too_long, t)
  duplicate : (j : ℕ) → Mounted t cs j → MountOutcome t cs id (err duplicate_mount, t)
  full :
      ((i : ℕ) → i < length t.entries → (e : MountEntry) × (get_elem? t.entries i ≡ some (some e)))
      → MountOutcome t cs id (err mount_table_full, t)

first_free :
    (es : List (Option MountEntry)) (i : ℕ)
    → position is_none es ≡ some i
    → get_elem? es i ≡ some none
first_free es i h =
    let f = position-FirstAt is_none es i h in ground (arith, f.found, is_none_lem f.value f.holds)
  where
    is_none_lem : (o : Option MountEntry) → is_none o ≡ true → o ≡ none
    is_none_lem none h = refl
    is_none_lem (some e) h = cc

all_taken :
    (es : List (Option MountEntry)) (i : ℕ)
    → position is_none es ≡ none
    → i < length es
    → (e : MountEntry) × (get_elem? es i ≡ some (some e))
all_taken es i h l =
    let (o, f) = get_elem?-some es i l in taken o f (position-none is_none es i o h f)
  where
    taken :
        (o : Option MountEntry)
        → get_elem? es i ≡ some o
        → is_none o ≡ false
        → (e : MountEntry) × (get_elem? es i ≡ some (some e))
    taken none f n = absurd (cc)
    taken (some e) f n = (e, f)

module _ (t : MountTable) (path : AbsolutePath) (id : ℕ) (v : IsValid t) (n : IsNormal path) where
  -- The outcome once the text is written.
  store_text :
      (text : PathText)
      → canonical_path path ≡ ok text
      → text_of text ≡ render (components path)
      → IsText text
      → text.path_length ≡ length (render (components path))
      → MountOutcome t (components path) id (mount t path id)
  unfolding mount mount_slot place_entry grown
  store_text text e written is_text measured =
      elim (Bool-cases (any (λ e. same_text e.text text) (flatten t.entries))) [
        | inl twice ↦
            let (i, d, f, same) = any-flatten-true (λ e. same_text e.text text) t.entries twice in
            let (cs, s) = v.stored i d f in
            rw (e, twice)
              (duplicate d.filesystem_id (record {
                place = i;
                entry = d;
                found = f;
                stores =
                    subst (Stores d)
                      (same_components d (entry_of path id text) cs (components path) s
                        (stores_new t path id v n text is_text written measured)
                        (bytes_eq→eq (text_of d.text) (text_of text) same))
                      s;
                on = refl;
              }))
        | inr fresh ↦ elim (Option-cases (position is_none t.entries)) [
          | inl none_free ↦
              rw (e, fresh, none_free) (full (λ i l. all_taken t.entries i none_free l))
          | inr (i, first) ↦
              rw (e, fresh, first)
                (added _ (
                  grown-Added t path id v n text is_text written measured i
                    (first_free t.entries i first) fresh))
        ]
      ]

  -- `mount` on a valid table adds exactly the path on the given file system, when it was not
  -- mounted, and keeps the table valid; or the canonical text has more than 256 bytes, or the path
  -- is mounted already, or every entry is taken, and the table stays as it was.
  pub mount-outcome : MountOutcome t (components path) id (mount t path id)
  unfolding mount mount_slot place_entry
  mount-outcome = elim (dec_lt 256 (length (render (components path)))) [
    | yes p ↦ rw ((canonical_path_lem path).1 p) (too_long p)
    | no p ↦
        let (text, e, written, is_text, measured) = (canonical_path_lem path).0 (omega arith) in
        store_text text e written is_text measured
  ]

-- So mounting keeps a table valid on every branch.
outcome-IsValid :
    {t : MountTable} {cs : List (List ℕ)} {id : ℕ} {r : Result VfsError (Unit {0}) × MountTable}
    → MountOutcome t cs id r
    → IsValid t
    → IsValid r.1
outcome-IsValid (added t' a) v = a.valid
outcome-IsValid (too_long h) v = v
outcome-IsValid (duplicate j m) v = v
outcome-IsValid (full h) v = v

pub mount-IsValid :
    (t : MountTable) (path : AbsolutePath) (id : ℕ)
    → IsValid t
    → IsNormal path
    → IsValid (mount t path id).1
mount-IsValid t path id v n = outcome-IsValid (mount-outcome t path id v n) v
