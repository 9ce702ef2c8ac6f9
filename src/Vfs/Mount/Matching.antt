-- ===== src/Vfs/Mount/Matching.antt =====
-- `mount_matches` and the prefixes of a path, component by component.
use slopos.Base.{
  ℕ, suc, zero, ◌+◌, ◌-◌, ◌≤◌, ◌≡◌, ◌↔◌, refl, Bool, true, false, not, ◌||◌, List, [], ◌∷◌, ◌++◌,
  arith, All, All-take-All, take, drop, get_elem?, length, bytes_eq, bytes_eq→eq, bytes_eq_refl,
  ◌∙◌, sym, ltb, if◌then◌else◌, some, bytes_eq-drop_nil, bytes_eq-append, length-take_le,
  length-drop, slice-take, drop-drop, drop_cons, drop_all, ◌≢◌,
}
use slopos.Vfs.Mount.Canonical.{text_of, IsText, joined, joined_nil}
use native.Mathlib.Numerals.{add-one}
use native.Mathlib.Decide.{dec_lt}
use slopos.Vfs.Path.{AbsolutePath, components, slash}
use slopos.Vfs.Path.Names.{IsName, IsNormal}
use slopos.Vfs.Path.Render.{join, join_rest, render, split-join}
use slopos.Vfs.Mount.{PathText, MountEntry, match_components, mount_matches, slice}

-- An entry that stores the canonical text of these components.
pub record Stores (e : MountEntry) (cs : List (List ℕ)) : Type 0 where
  pub text : text_of e.text ≡ render cs
  pub is_text : IsText e.text
  pub text_length : e.text.path_length ≡ length (render cs)
  pub counted : e.component_count ≡ length cs
  pub names : All IsName cs

length-text : (t : PathText) → IsText t → length (text_of t) ≡ t.path_length
length-text t v = length-take_le t.path_length t.bytes (omega (arith, v.array, v.within))

-- One component, once the separator is passed.
match_one :
    (t : PathText) (c : List ℕ) (rest : List ℕ) (after : ℕ) (later : Bool)
    → IsText t
    → after ≤ t.path_length
    → (after + length c ≤ t.path_length
        → later ≡ bytes_eq (drop (after + length c) (text_of t)) rest)
    → (if ltb t.path_length (after + length c)
          || not (bytes_eq (slice t.bytes after (after + length c)) c)
        then false
        else later)
      ≡ bytes_eq (drop after (text_of t)) (c ++ rest)
match_one t c rest after later v h ih =
    let e : after + length c - after ≡ length c = omega arith in
    rw
      (
        bytes_eq-append (drop after (text_of t)) c rest,
        size,
        drop-drop after (length c) (text_of t),
        e,
      )
      (ground (arith, ih, slice-take t.path_length after (length c) t.bytes))
  where
    size : length (drop after (text_of t)) ≡ t.path_length - after
    size = length-drop after (text_of t) ∙ rw (length-text t v)

-- The loop compares the rest of the stored text with the text of the components that are left.
match_components_lem :
    (t : PathText) (first : Bool) (cs : List (List ℕ)) (cursor : ℕ)
    → IsText t
    → cursor ≤ t.path_length
    → match_components t first cs cursor ≡ bytes_eq (drop cursor (text_of t)) (joined first cs)
unfolding match_components join join_rest
match_components_lem t first [] cursor v h = rw (
  joined_nil first,
  bytes_eq-drop_nil cursor (text_of t) (omega (arith, h, length-text t v)),
  length-text t v,
)
match_components_lem t true (c ∷ cs) cursor v h =
    match_one t c (join_rest cs) cursor _ v h
      (λ l. match_components_lem t false cs (cursor + length c) v l)
match_components_lem t false (c ∷ cs) cursor v h = elim (dec_lt cursor t.path_length) [
  | yes p ↦
      let (x, e, d) = drop_cons t.path_length cursor t.bytes p (omega (arith, v.array, v.within)) in
      let tail =
        match_one t c (join_rest cs) (cursor + 1) _ v (omega arith)
          (λ l. match_components_lem t false cs (cursor + 1 + length c) v l) in
      ground (arith, e, d, tail, add-one cursor)
  | no p ↦ ground (arith, drop_all cursor (text_of t) (omega (arith, length-text t v)))
]

join_nonempty : (c : List ℕ) (cs : List (List ℕ)) → IsName c → join (c ∷ cs) ≢ []
unfolding join
join_nonempty [] cs n h = absurd (ground (arith, n.nonempty))
join_nonempty (b ∷ c) cs n h = cc

-- The text of some names determines the names.
pub join-injective :
    (cs ds : List (List ℕ)) → All IsName cs → All IsName ds → join cs ≡ join ds → cs ≡ ds
join-injective [] [] a b h = refl
join-injective [] (d ∷ ds) a b h = absurd (join_nonempty d ds b.0 (unfold join in sym h))
join-injective (c ∷ cs) [] a b h = absurd (join_nonempty c cs a.0 (unfold join in h))
join-injective (c ∷ cs) (d ∷ ds) a b h = sym (split-join c cs a) ∙ rw h (split-join d ds b)

first_byte :
    (n : ℕ) (xs : List ℕ) (b : ℕ) (r : List ℕ) → take n xs ≡ b ∷ r → get_elem? xs 0 ≡ some b
first_byte zero xs b r h = cc
first_byte (suc n) [] b r h = cc
first_byte (suc n) (x ∷ xs) b r h = ground arith

-- Joined texts of names are compared like the names.
compare_names :
    (cs ds : List (List ℕ))
    → All IsName cs
    → All IsName ds
    → (bytes_eq (join cs) (join ds) ≡ true) ↔ (cs ≡ ds)
compare_names cs ds a b = (
  λ h. join-injective cs ds a b (bytes_eq→eq (join cs) (join ds) h),
  λ h. rw h (bytes_eq_refl (join ds)),
)

matches_at_root : (e : MountEntry) (path : AbsolutePath) → Stores e [] → mount_matches e path ≡ true
unfolding mount_matches join
matches_at_root e path s =
    ground
      (arith, s.counted, s.text_length, first_byte e.text.path_length e.text.bytes slash [] s.text)

matches_below_root :
    (e : MountEntry) (c : List ℕ) (cs : List (List ℕ)) (path : AbsolutePath)
    → Stores e (c ∷ cs)
    → mount_matches e path
      ≡ bytes_eq (join (c ∷ cs)) (join (take (length (c ∷ cs)) (components path)))
unfolding mount_matches
matches_below_root e c cs path s =
    let loop =
      match_components_lem e.text true (take (length (c ∷ cs)) (components path)) 1 s.is_text
        (omega (arith, s.text_length)) in
    ground (arith, s.counted, loop, s.text)

-- `mount_matches` on a stored entry, whose component count does not pass that of the path, decides
-- whether the components of the entry are the first ones of the path.
pub mount_matches_iff :
    (e : MountEntry) (cs : List (List ℕ)) (path : AbsolutePath)
    → Stores e cs
    → IsNormal path
    → e.component_count ≤ path.component_count
    → (mount_matches e path ≡ true) ↔ (cs ≡ take (length cs) (components path))
mount_matches_iff e [] path s v l = (λ _. refl, λ _. matches_at_root e path s)
mount_matches_iff e (c ∷ cs) path s v l = rw (matches_below_root e c cs path s) (
    compare_names (c ∷ cs) (take (length (c ∷ cs)) (components path)) s.names
      (All-take-All IsName (length (c ∷ cs)) (components path) v.names))
