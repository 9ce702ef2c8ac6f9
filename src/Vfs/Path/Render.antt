-- ===== src/Vfs/Path/Render.antt =====
-- Paths and their canonical text.
use slopos.Vfs.Path.Dots.{split-append, split_single, add_component_name, contains-append}
use slopos.Base.{
  ℕ, ◌+◌, ◌≤◌, ◌<◌, ◌≡◌, refl, false, List, [], ◌∷◌, ◌++◌, ok, arith, All, take-set, length,
  contains, ◌∙◌, sym, ap, length-take_le, append-nil, append_assoc,
}
use native.Mathlib.Numerals.{add-one}
use slopos.Vfs.Path.{
  AbsolutePath, root, slash, split, add_component, add_components, parse, components,
}
use slopos.Vfs.Path.Names.{IsName, IsNormal, pushed, push-IsNormal, root-IsNormal, parse-IsNormal}

-- The names with a slash before each of them.
unfoldable pub join_rest : List (List ℕ) → List ℕ
join_rest [] = []
join_rest (c ∷ cs) = slash ∷ (c ++ join_rest cs)

-- The names with a slash between two of them.
unfoldable pub join : List (List ℕ) → List ℕ
join [] = []
join (c ∷ cs) = c ++ join_rest cs

-- The canonical text of a path.
abbrev pub render : List (List ℕ) → List ℕ
render cs = slash ∷ join cs

pub split-join :
    (c : List ℕ) (cs : List (List ℕ)) → All IsName (c ∷ cs) → split (join (c ∷ cs)) ≡ c ∷ cs
unfolding join join_rest
split-join c [] h = rw append-nil (split_single c h.0.no_slash)
split-join c (d ∷ cs) h =
    split-append c (d ++ join_rest cs)
    ∙ rw (split_single c h.0.no_slash) (ap (◌∷◌ c) (split-join d cs h.1))

pushed_components :
    (c : List ℕ) (a : AbsolutePath)
    → IsNormal a
    → a.component_count < 16
    → components (pushed c a) ≡ components a ++ c ∷ []
unfolding components
pushed_components c a v room =
    rw add-one (take-set a.components a.component_count c (omega (arith, v.places)))

-- Adding names puts them behind those that are there.
pub add_names :
    (cs : List (List ℕ)) (a : AbsolutePath)
    → IsNormal a
    → All IsName cs
    → a.component_count + length cs ≤ 16
    → (b : AbsolutePath) × (add_components cs a ≡ ok b)
      × (components b ≡ components a ++ cs)
      × (b.component_count ≡ a.component_count + length cs)
unfolding add_components
add_names [] a v names room = (a, refl, sym (append-nil (components a)), omega arith)
add_names (c ∷ cs) a v names room =
    let (b, e, same, counted) =
      add_names cs (pushed c a) (push-IsNormal a v c (omega arith) names.0) names.1 (omega arith) in
    (
      b,
      rw (add_component_name c a names.0 (omega arith)) e,
      same ∙ rw (pushed_components c a v (omega arith), append_assoc),
      omega (arith, counted),
    )

join_rest_clean : (cs : List (List ℕ)) → All IsName cs → contains (join_rest cs) 0 ≡ false
unfolding join_rest
join_rest_clean [] h = refl
join_rest_clean (c ∷ cs) h =
    ground (arith, contains-append c (join_rest cs) 0, h.0.no_null, join_rest_clean cs h.1)

join_clean : (cs : List (List ℕ)) → All IsName cs → contains (join cs) 0 ≡ false
unfolding join
join_clean [] h = refl
join_clean (c ∷ cs) h =
    ground (arith, contains-append c (join_rest cs) 0, h.0.no_null, join_rest_clean cs h.1)

parse_text :
    (text : List ℕ)
    → contains text 0 ≡ false
    → parse (slash ∷ text) ≡ add_components (split text) root
unfolding parse split add_components add_component
parse_text text clean = ground arith

-- Printing up to sixteen names and parsing the text gives the names.
pub parse-render :
    (cs : List (List ℕ))
    → All IsName cs
    → length cs ≤ 16
    → (a : AbsolutePath) × (parse (render cs) ≡ ok a) × (components a ≡ cs)
unfolding components join add_components add_component split
parse-render [] h l = (root, parse_text [] refl, refl)
parse-render (c ∷ cs) h l =
    let (b, e, same, _) = add_names (c ∷ cs) root root-IsNormal h (omega arith) in
    (b, parse_text (join (c ∷ cs)) (join_clean (c ∷ cs) h) ∙ rw (split-join c cs h) e, same)

-- So every accepted text has a canonical one, which parses to the same components.
pub parse-render-parse :
    (path : List ℕ) (a : AbsolutePath)
    → parse path ≡ ok a
    → (b : AbsolutePath) × (parse (render (components a)) ≡ ok b) × (components b ≡ components a)
unfolding components
parse-render-parse path a h =
    let v = parse-IsNormal path a h in
    parse-render (components a) v.names
      (omega (arith, v.counted, v.places, length-take_le a.component_count a.components))
