-- ===== src/Vfs/Path/Dots.antt =====
-- Longer paths: what follows a slash is added component by component, and `.` and `..` are
-- resolved at once.
use slopos.Base.{
  get_elem?-set, Result-cases, ℕ, suc, zero, ◌+◌, ◌-◌, ◌<◌, ◌≡◌, ◌≢◌, refl, false, ◌||◌, List, [],
  ◌∷◌, ◌++◌, ok, ◌>>=◌, arith, take, set, contains, inl, inr, Bool-cases, ◌∙◌, get_elem?, some,
  ◌==◌, ap,
}
use slopos.Vfs.Path.{
  AbsolutePath, root, slash, dot, dot_dot, split, add_component, add_components, parse, components,
}
use slopos.Vfs.Path.Names.{IsName, popped, pushed, parse-IsNormal}

split_cons : (cs : List ℕ) → (p : List ℕ) × (ps : List (List ℕ)) × (split cs ≡ p ∷ ps)
unfolding split
split_cons [] = ([], [], refl)
split_cons (c ∷ cs) =
    let (p, ps, e) = split_cons cs in
    elim (Bool-cases (c == slash)) [
      | inl at ↦ ([], split cs, rw at)
      | inr off ↦ (c ∷ p, ps, rw (off, e))
    ]

pub split-append : (p q : List ℕ) → split (p ++ slash ∷ q) ≡ split p ++ split q
unfolding split
split-append [] q = refl
split-append (c ∷ cs) q = let (p, ps, e) = split_cons cs in ground (arith, split-append cs q, e)

pub split_single : (c : List ℕ) → contains c slash ≡ false → split c ≡ c ∷ []
unfolding split
split_single [] h = refl
split_single (x ∷ xs) h = ground (arith, split_single xs)

pub add_components-append :
    (xs ys : List (List ℕ)) (a : AbsolutePath)
    → add_components (xs ++ ys) a ≡ (add_components xs a >>= add_components ys)
unfolding add_components
add_components-append [] ys a = refl
add_components-append (x ∷ xs) ys a = elim (Result-cases (add_component x a)) [
  | inl (b, e) ↦ rw e (add_components-append xs ys b)
  | inr (er, e) ↦ rw e
]

pub contains-append :
    (xs ys : List ℕ) (b : ℕ) → contains (xs ++ ys) b ≡ (contains xs b || contains ys b)
contains-append [] ys b = refl
contains-append (x ∷ xs) ys b = ground (arith, contains-append xs ys b)

-- A parsed path followed by a slash and more text: the rest is resolved from where it stands.
pub parse-append :
    (p q : List ℕ) (a : AbsolutePath)
    → parse p ≡ ok a
    → contains q 0 ≡ false
    → parse (p ++ slash ∷ q) ≡ add_components (split q) a
unfolding parse
parse-append [] q a h c = absurd (ground arith)
parse-append (x ∷ xs) q a h c =
    rw (split-append (x ∷ xs) q, add_components-append (split (x ∷ xs)) (split q) root)
      (ground (arith, contains-append xs (slash ∷ q) 0))

-- After a parsed path, `/..` leaves the last component, and `/.` and a trailing slash change
-- nothing.
parse_dots :
    (p : List ℕ) (a : AbsolutePath)
    → parse p ≡ ok a
    → (parse (p ++ slash ∷ dot_dot) ≡ ok (popped a))
      × (parse (p ++ slash ∷ dot) ≡ ok a)
      × (parse (p ++ slash ∷ []) ≡ ok a)
unfolding split add_component add_components
parse_dots p a h =
    (parse-append p dot_dot a h refl, parse-append p dot a h refl, parse-append p [] a h refl)

pub add_component_name :
    (c : List ℕ) (a : AbsolutePath)
    → IsName c
    → a.component_count < 16
    → add_component c a ≡ ok (pushed c a)
unfolding add_component
add_component_name c a name room = ground arith

pub take-set_below : {A : Type 0} (i : ℕ) (xs : List A) (v : A) → take i (set xs i v) ≡ take i xs
take-set_below i [] v = refl
take-set_below zero (x ∷ xs) v = refl
take-set_below (suc i) (x ∷ xs) v = ap (◌∷◌ x) (take-set_below i xs v)

enter_leave :
    (c : List ℕ) (a : AbsolutePath)
    → IsName c
    → a.component_count < 16
    → add_components (split (c ++ slash ∷ dot_dot)) a ≡ ok (popped (pushed c a))
unfolding add_components
enter_leave c a name room =
    rw (split-append c dot_dot, split_single c name.no_slash, add_component_name c a name room)
      (unfold add_component split in refl)

-- Adding a name and `..` to a parsed path with room gives the same components; the parsed values
-- differ unless the array held that name behind the count already.
pub parse_enter_leave :
    (p c : List ℕ) (a : AbsolutePath)
    → parse p ≡ ok a
    → IsName c
    → a.component_count < 16
    → (b : AbsolutePath) × (parse (p ++ slash ∷ (c ++ slash ∷ dot_dot)) ≡ ok b)
      × (components b ≡ components a)
      × (get_elem? a.components a.component_count ≢ some c → b ≢ a)
unfolding components
parse_enter_leave p c a h name room = (
  popped (pushed c a),
  parse-append p (c ++ slash ∷ dot_dot) a h
        (ground (arith, contains-append c (slash ∷ dot_dot) 0, name.no_null))
      ∙ enter_leave c a name room,
  let e : a.component_count + 1 - 1 ≡ a.component_count = omega arith in
      rw e (take-set_below a.component_count a.components c),
  λ fresh same. fresh (stale (ap (λ (b : AbsolutePath). b.components) same)),
)
  where
    stale :
        set a.components a.component_count c ≡ a.components
        → get_elem? a.components a.component_count ≡ some c
    stale e = ground (
      arith,
      e,
      get_elem?-set a.components a.component_count a.component_count c,
      (parse-IsNormal p a h).places,
    )
