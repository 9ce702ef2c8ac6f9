-- ===== src/Vfs/Path/Names.antt =====
-- What `parse` promises of the components that it keeps.
use native.Mathlib.Numerals.{add-one}
use slopos.Base.{
  length-take_le, ok-injective, ok_of_bind, ◌⊎◌, ◌≢◌, ℕ, ◌+◌, ◌-◌, ◌≤◌, ◌<◌, ◌≡◌, refl, false, List,
  [], ◌∷◌, ok, arith, All, All-append, All-take, take-set, set, length, length-set, contains,
  bytes_eq, inl, inr, Bool-cases, ◌∙◌, subst,
}
use slopos.Vfs.Path.{
  AbsolutePath, root, slash, dot, dot_dot, push_front, split, is_empty, add_component,
  add_components, parse, components,
}

-- A name that a path can hold: neither empty nor special, short, and free of separators.
pub record IsName (c : List ℕ) : Type 0 where
  pub nonempty : is_empty c ≡ false
  pub not_dot : bytes_eq c dot ≡ false
  pub not_dot_dot : bytes_eq c dot_dot ≡ false
  pub short : length c ≤ 255
  pub no_slash : contains c slash ≡ false
  pub no_null : contains c 0 ≡ false

-- The array has sixteen places, and those below the count hold names.
pub record IsNormal (a : AbsolutePath) : Type 0 where
  pub places : length a.components ≡ 16
  pub counted : a.component_count ≤ 16
  pub names : All IsName (components a)

abbrev Piece : List ℕ → Type 0
Piece c = (contains c slash ≡ false) × (contains c 0 ≡ false)

push_front-Piece :
    (c : ℕ) (ps : List (List ℕ))
    → contains (c ∷ []) slash ≡ false
    → contains (c ∷ []) 0 ≡ false
    → All Piece ps
    → All Piece (push_front c ps)
push_front-Piece c [] s n h = ground arith
push_front-Piece c (p ∷ ps) s n h = ground arith

split-Piece : (cs : List ℕ) → contains cs 0 ≡ false → All Piece (split cs)
unfolding split
split-Piece [] h = ground arith
split-Piece (c ∷ cs) h = ground (arith, split-Piece cs, push_front-Piece c (split cs))

pub root-IsNormal : IsNormal root
unfolding components
root-IsNormal = record { places = refl; counted = omega arith; names = tt }

abbrev pub popped : AbsolutePath → AbsolutePath
popped a = record a { component_count = a.component_count - 1 }

abbrev pub pushed : List ℕ → AbsolutePath → AbsolutePath
pushed c a = record {
  components = set a.components a.component_count c;
  component_count = a.component_count + 1;
}

-- The three ways in which a round succeeds.
add_component_cases :
    (c : List ℕ) (a b : AbsolutePath)
    → Piece c
    → add_component c a ≡ ok b
    → (b ≡ a) ⊎ (b ≡ popped a) ⊎ ((b ≡ pushed c a) × IsName c × (a.component_count ≢ 16))
unfolding add_component
add_component_cases c a b p h = ground arith

module _ (a : AbsolutePath) (v : IsNormal a) where
  pub pop-IsNormal : IsNormal (popped a)
  unfolding components
  pop-IsNormal = record {
    places = v.places;
    counted = omega (arith, v.counted);
    names = All-take IsName a.components _ _ (omega arith) v.names;
  }

  pub push-IsNormal : (c : List ℕ) → a.component_count < 16 → IsName c → IsNormal (pushed c a)
  unfolding components
  push-IsNormal c room name = record {
    places = length-set a.components a.component_count c ∙ v.places;
    counted = omega arith;
    names =
        rw (add-one, take-set a.components a.component_count c (omega (arith, v.places)))
          (All-append IsName (components a) (c ∷ []) v.names (name, tt));
  }

  add_component-IsNormal :
      (c : List ℕ) (b : AbsolutePath) → Piece c → add_component c a ≡ ok b → IsNormal b
  add_component-IsNormal c b p h = elim (add_component_cases c a b p h) [
    | inl e ↦ rw e v
    | inr (inl e) ↦ rw e pop-IsNormal
    | inr (inr (e, name, room)) ↦ rw e (push-IsNormal c (omega (arith, v.counted)) name)
  ]

add_components-IsNormal :
    (cs : List (List ℕ)) (a b : AbsolutePath)
    → All Piece cs
    → IsNormal a
    → add_components cs a ≡ ok b
    → IsNormal b
unfolding add_components
add_components-IsNormal [] a b p v h = subst IsNormal (ok-injective h) v
add_components-IsNormal (c ∷ cs) a b p v h =
    let (a', e, rest) = ok_of_bind (add_component c a) (add_components cs) h in
    add_components-IsNormal cs a' b p.1 (add_component-IsNormal a v c a' p.0 e) rest

-- A parsed path has at most sixteen components, and each is a name: not empty, not `.` or `..`, at
-- most 255 bytes long, with no slash and no null byte.
pub parse-IsNormal : (path : List ℕ) (a : AbsolutePath) → parse path ≡ ok a → IsNormal a
unfolding parse
parse-IsNormal path a h = elim (Bool-cases (contains path 0)) [
  | inl nul ↦ absurd (ground arith)
  | inr clean ↦
      add_components-IsNormal (split path) root a (split-Piece path clean) root-IsNormal
        (ground arith)
]

pub length-components : (a : AbsolutePath) → IsNormal a → length (components a) ≡ a.component_count
unfolding components
length-components a v =
    length-take_le a.component_count a.components (omega (arith, v.places, v.counted))
