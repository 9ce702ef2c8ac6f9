-- ===== src/Tests/Paths.antt =====
-- Paths of crates/vfs/src/lib.rs.
use slopos.Base.{ℕ, ◌≡◌, ◌≢◌, refl, List, [], ◌∷◌, ◌++◌, ok, err, some, arith, get_elem?, set}
use slopos.Vfs.{invalid_path}
use slopos.Vfs.Path.{AbsolutePath, root, slash, dot, dot_dot, parse, components}
use slopos.Vfs.Path.Names.{IsName, IsNormal, parse-IsNormal}
use slopos.Vfs.Path.Dots.{parse_enter_leave}
use slopos.Vfs.Path.Render.{render, parse-render}

abbrev usr : List ℕ
usr = b'u' ∷ b's' ∷ b'r' ∷ []

abbrev etc : List ℕ
etc = b'e' ∷ b't' ∷ b'c' ∷ []

abbrev etc_path : AbsolutePath
etc_path = record { components = set root.components 0 etc; component_count = 1 }

-- /usr//../etc/./
parse_normalizes :
    parse
      (slash ∷ (usr ++ slash ∷ slash ∷ (dot_dot ++ slash ∷ (etc ++ slash ∷ (dot ++ slash ∷ [])))))
    ≡ ok etc_path
unfolding parse
parse_normalizes = refl

parse_relative : parse usr ≡ err invalid_path
unfolding parse
parse_relative = refl

parse-etc : parse (slash ∷ etc) ≡ ok etc_path
unfolding parse
parse-etc = refl

usr-IsName : IsName usr
usr-IsName = record {
  nonempty = refl;
  not_dot = refl;
  not_dot_dot = refl;
  short = omega arith;
  no_slash = refl;
  no_null = refl;
}

parse-IsNormal_example : IsNormal etc_path
parse-IsNormal_example = parse-IsNormal (slash ∷ etc) etc_path parse-etc

parse_enter_leave_example :
    (b : AbsolutePath) × (parse (slash ∷ etc ++ slash ∷ (usr ++ slash ∷ dot_dot)) ≡ ok b)
    × (components b ≡ components etc_path)
    × (get_elem? etc_path.components 1 ≢ some usr → b ≢ etc_path)
parse_enter_leave_example =
    parse_enter_leave (slash ∷ etc) usr etc_path parse-etc usr-IsName (omega arith)

parse-render_example :
    (a : AbsolutePath) × (parse (render (usr ∷ usr ∷ [])) ≡ ok a) × (components a ≡ usr ∷ usr ∷ [])
parse-render_example = parse-render (usr ∷ usr ∷ []) (usr-IsName, (usr-IsName, tt)) (omega arith)
