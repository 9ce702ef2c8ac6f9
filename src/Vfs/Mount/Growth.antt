-- ===== src/Vfs/Mount/Growth.antt =====
-- A table with one more entry: what `mount` makes of a valid table when its checks pass.
use slopos.Base.{
  ℕ, ◌+◌, ◌≡◌, ◌≢◌, refl, not, false, List, arith, none, some, inl, inr, ◌⊎◌, set, get_elem?,
  length, any, get_elem?_bound, bytes_eq_refl, get_elem?-set, count-set, ◌∙◌, sym, ap,
}
use slopos.Vfs.Path.{AbsolutePath, components}
use slopos.Vfs.Path.Names.{IsNormal, length-components}
use slopos.Vfs.Path.Render.{render}
use slopos.Vfs.Mount.{PathText, MountEntry, MountTable, entry_of, flatten, is_none, same_text}
use slopos.Vfs.Mount.Canonical.{text_of, IsText}
use slopos.Vfs.Mount.Matching.{Stores}
use slopos.Vfs.Mount.Table.{Mounted, IsValid, any-flatten-false, same_components}

pub record Added (t t' : MountTable) (cs : List (List ℕ)) (id : ℕ) : Type 0 where
  pub valid : IsValid t'
  pub is_new : (j : ℕ) → ¬ (Mounted t cs j)
  pub is_there : Mounted t' cs id
  pub kept : (ds : List (List ℕ)) (j : ℕ) → Mounted t ds j → Mounted t' ds j
  pub only :
      (ds : List (List ℕ)) (j : ℕ) → Mounted t' ds j → Mounted t ds j ⊎ ((ds ≡ cs) × (j ≡ id))

module _ (t : MountTable) (path : AbsolutePath) (id : ℕ) (v : IsValid t) (n : IsNormal path)
    (text : PathText) (is_text : IsText text) (written : text_of text ≡ render (components path))
    (measured : text.path_length ≡ length (render (components path))) where
  pub stores_new : Stores (entry_of path id text) (components path)
  stores_new = record {
    text = written;
    is_text = is_text;
    text_length = measured;
    counted = sym (length-components path n);
    names = n.names;
  }

  module _ (place : ℕ) (free : get_elem? t.entries place ≡ some none)
      (fresh : any (λ e. same_text e.text text) (flatten t.entries) ≡ false) where
    unfoldable pub grown : MountTable
    grown = record {
      entries = set t.entries place (some (entry_of path id text));
      count = t.count + 1;
    }

    read_grown :
        (i : ℕ) (e : MountEntry)
        → get_elem? grown.entries i ≡ some (some e)
        → ((i ≡ place) × (e ≡ entry_of path id text))
          ⊎ ((i ≢ place) × (get_elem? t.entries i ≡ some (some e)))
    unfolding grown
    read_grown i e h =
        ground (arith, get_elem?-set t.entries place i (some (entry_of path id text)))

    new_text :
        (i : ℕ) (e : MountEntry)
        → get_elem? t.entries i ≡ some (some e)
        → text_of e.text ≢ text_of text
    new_text i e h same =
        let no_match = any-flatten-false (λ e. same_text e.text text) t.entries i e fresh h in
        ground (arith, no_match, same, bytes_eq_refl (text_of text))

    grown-IsValid : IsValid grown
    unfolding grown
    grown-IsValid = record {
      stored = λ i e h. elim (read_grown i e h) [
        | inl (at, new) ↦ (components path, rw new stores_new)
        | inr (off, old) ↦ v.stored i e old
      ];
      distinct = λ i j d e h k same. ground (
        arith,
        read_grown i d h,
        read_grown j e k,
        new_text i d,
        new_text j e,
        v.distinct i j d e,
      );
      counted = ground (
        arith,
        v.counted,
        count-set (λ e. not (is_none e)) t.entries place none (some (entry_of path id text)) free,
      );
    }

    pub grown-Added : Added t grown (components path) id
    unfolding grown
    grown-Added = record {
      valid = grown-IsValid;
      is_new = λ j m. new_text m.place m.entry m.found (m.stores.text ∙ sym written);
      is_there = record {
        place = place;
        entry = entry_of path id text;
        found = ground (
          arith,
          get_elem?-set t.entries place place (some (entry_of path id text)),
          get_elem?_bound t.entries place free,
        );
        stores = stores_new;
        on = refl;
      };
      kept = λ ds j m. record {
        place = m.place;
        entry = m.entry;
        found = ground (
          arith,
          m.found,
          free,
          get_elem?-set t.entries place m.place (some (entry_of path id text)),
        );
        stores = m.stores;
        on = m.on;
      };
      only = only_new;
    }
      where
        only_new :
            (ds : List (List ℕ)) (j : ℕ)
            → Mounted grown ds j
            → Mounted t ds j ⊎ ((ds ≡ components path) × (j ≡ id))
        only_new ds j m = elim (read_grown m.place m.entry m.found) [
          | inl (at, new) ↦ inr (
            same_components m.entry (entry_of path id text) ds (components path) m.stores stores_new
                (ap (λ (e : MountEntry). text_of e.text) new),
            sym m.on ∙ ap (λ (e : MountEntry). e.filesystem_id) new,
          )
          | inr (off, old) ↦ inl (record {
            place = m.place;
            entry = m.entry;
            found = old;
            stores = m.stores;
            on = m.on;
          })
        ]
