-- ===== src/Vfs/Path.antt =====
-- crates/vfs/src/lib.rs: `AbsolutePath`. Bytes are numbers; the array of components keeps what a
-- `..` leaves behind the count, as the source's does.
pub mod Names
pub mod Dots
pub mod Render
use slopos.Base.{
  ℕ, suc, ◌+◌, ◌-◌, ◌≡◌, Bool, true, false, not, ◌||◌, Option, none, some, List, [], ◌∷◌, Result,
  ok, err, ◌>>=◌, if◌then◌else◌, ltb, ◌==◌, take, set, replicate, length, contains, bytes_eq,
}
use slopos.Vfs.{VfsError, invalid_path, too_many_components, max_path_components}

abbrev pub slash : ℕ
slash = b'/'

abbrev pub dot : List ℕ
dot = b'.' ∷ []

abbrev pub dot_dot : List ℕ
dot_dot = b'.' ∷ b'.' ∷ []

pub record AbsolutePath : Type 0 where
  pub components : List (List ℕ)
  pub component_count : ℕ

abbrev pub root : AbsolutePath
root = record { components = replicate max_path_components []; component_count = 0 }

abbrev pub push_front : ℕ → List (List ℕ) → List (List ℕ)
push_front c [] = (c ∷ []) ∷ []
push_front c (p ∷ ps) = (c ∷ p) ∷ ps

-- `path.split(|byte| *byte == b'/')`
unfoldable pub split : List ℕ → List (List ℕ)
split [] = [] ∷ []
split (c ∷ cs) = let rest = split cs in if c == slash then [] ∷ rest else push_front c rest

abbrev pub is_empty : List ℕ → Bool
is_empty [] = true
is_empty (c ∷ cs) = false

abbrev pub starts_with_slash : List ℕ → Bool
starts_with_slash [] = false
starts_with_slash (c ∷ cs) = c == slash

-- One round of the loop of `parse`.
unfoldable pub add_component : List ℕ → AbsolutePath → Result VfsError AbsolutePath
add_component c a =
    if is_empty c || bytes_eq c dot
    then ok a
    else if bytes_eq c dot_dot
    then ok (record a { component_count = a.component_count - 1 })
    else if ltb 255 (length c)
    then err invalid_path
    else if a.component_count == max_path_components
    then err too_many_components
    else ok (record {
      components = set a.components a.component_count c;
      component_count = a.component_count + 1;
    })

unfoldable pub add_components : List (List ℕ) → AbsolutePath → Result VfsError AbsolutePath
add_components [] a = ok a
add_components (c ∷ cs) a = add_component c a >>= λ b. add_components cs b

unfoldable pub parse : List ℕ → Result VfsError AbsolutePath
unfolding split add_component add_components
parse path =
    if not (starts_with_slash path) || contains path 0
    then err invalid_path
    else add_components (split path) root

-- `components()`
unfoldable pub components : AbsolutePath → List (List ℕ)
components a = take a.component_count a.components
