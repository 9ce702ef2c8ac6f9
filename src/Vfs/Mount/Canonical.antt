-- ===== src/Vfs/Mount/Canonical.antt =====
-- `canonical_path` and the canonical text of the components.
use slopos.Base.{
  ℕ, ◌+◌, ◌≤◌, ◌<◌, ◌≡◌, refl, Bool, true, false, List, [], ◌∷◌, ◌++◌, Result, ok, err, ◌>>=◌,
  arith, take, take-set, set, length, length-set, length-append, replicate, ◌∙◌, sym, append-nil,
  append_assoc,
}
use native.Mathlib.Numerals.{add-one}
use native.Mathlib.Decide.{dec_lt}
use slopos.Vfs.{VfsError, mount_path_too_long}
use slopos.Vfs.Path.{AbsolutePath, components, slash}
use slopos.Vfs.Path.Render.{join, join_rest, render}
use slopos.Vfs.Mount.{PathText, write_at, add_separator, add_text, add_texts, canonical_path}

abbrev pub text_of : PathText → List ℕ
text_of t = take t.path_length t.bytes

-- What the loop has written so far fits the array.
pub record IsText (t : PathText) : Type 0 where
  pub array : length t.bytes ≡ 256
  pub within : t.path_length ≤ 256

length-write_at :
    (xs : List ℕ) (start : ℕ) (bs : List ℕ) → length (write_at xs start bs) ≡ length xs
unfolding write_at
length-write_at xs start [] = refl
length-write_at xs start (b ∷ bs) =
    length-write_at (set xs start b) (start + 1) bs ∙ length-set xs start b

take-write_at :
    (xs : List ℕ) (start : ℕ) (bs : List ℕ) (end : ℕ)
    → end ≡ start + length bs
    → end ≤ length xs
    → take end (write_at xs start bs) ≡ take start xs ++ bs
unfolding write_at
take-write_at xs start [] end e h = let e' : end ≡ start = omega arith in rw (e', append-nil)
take-write_at xs start (b ∷ bs) end e h =
    take-write_at (set xs start b) (start + 1) bs end (omega arith)
      (omega (arith, length-set xs start b))
    ∙ rw (add-one, take-set xs start b (omega arith), append_assoc)

-- The text of the components that are still to be written.
abbrev pub joined : Bool → List (List ℕ) → List ℕ
joined true cs = join cs
joined false cs = join_rest cs

abbrev Extends : PathText → List ℕ → Result VfsError PathText → Type 0
Extends t more r =
    (t.path_length + length more ≤ 256
      → (t' : PathText) × (r ≡ ok t')
        × (text_of t' ≡ text_of t ++ more)
        × IsText t'
        × (t'.path_length ≡ t.path_length + length more))
    × (256 < t.path_length + length more → r ≡ err mount_path_too_long)

add_text-Extends : (c : List ℕ) (t : PathText) → IsText t → Extends t c (add_text c t)
unfolding add_text
add_text-Extends c t v = (
  λ h. (
    record { bytes = write_at t.bytes t.path_length c; path_length = t.path_length + length c },
    ground (arith, v.array),
    take-write_at t.bytes t.path_length c (t.path_length + length c) refl (omega (arith, v.array)),
    record { array = length-write_at t.bytes t.path_length c ∙ v.array; within = h },
    refl,
  ),
  λ h. ground (arith, v.array),
)

separator : Bool → List ℕ
separator true = []
separator false = slash ∷ []

add_separator-Extends :
    (first : Bool) (t : PathText) → IsText t → Extends t (separator first) (add_separator first t)
unfolding add_separator separator
add_separator-Extends true t v = (
  λ h. (t, refl, sym (append-nil (text_of t)), v, omega arith),
  λ h. absurd (omega (arith, v.within)),
)
add_separator-Extends false t v = (
  λ h. (
    record { bytes = set t.bytes t.path_length slash; path_length = t.path_length + 1 },
    ground (arith, v.array),
    rw (add-one, take-set t.bytes t.path_length slash (omega (arith, v.array))),
    record { array = length-set t.bytes t.path_length slash ∙ v.array; within = omega arith },
    refl,
  ),
  λ h. ground (arith, v.array, v.within),
)

-- One writer after another.
Extends-bind :
    (t : PathText) (more rest : List ℕ) (r : Result VfsError PathText)
    (f : PathText → Result VfsError PathText)
    → Extends t more r
    → ((t' : PathText) → IsText t' → Extends t' rest (f t'))
    → Extends t (more ++ rest) (r >>= f)
Extends-bind t more rest r f now later = (fits, over)
  where
    sum : length (more ++ rest) ≡ length more + length rest
    sum = length-append more rest

    fits :
        t.path_length + length (more ++ rest) ≤ 256
        → (t' : PathText) × ((r >>= f) ≡ ok t')
          × (text_of t' ≡ text_of t ++ (more ++ rest))
          × IsText t'
          × (t'.path_length ≡ t.path_length + length (more ++ rest))
    fits h =
        let (t', e, text, v', n) = now.0 (omega (arith, sum)) in
        let (t'', e', text', v'', n') = (later t' v').0 (omega (arith, sum, n)) in
        (t'', rw e e', text' ∙ rw (text, append_assoc), v'', omega (arith, sum, n, n'))

    over : 256 < t.path_length + length (more ++ rest) → (r >>= f) ≡ err mount_path_too_long
    over h = elim (dec_lt 256 (t.path_length + length more)) [
      | yes p ↦ rw (now.1 p)
      | no p ↦
          let (t', e, text, v', n) = now.0 (omega arith) in
          rw e ((later t' v').1 (omega (arith, sum, n)))
    ]

joined_cons :
    (first : Bool) (c : List ℕ) (cs : List (List ℕ))
    → separator first ++ (c ++ join_rest cs) ≡ joined first (c ∷ cs)
unfolding separator join join_rest
joined_cons true c cs = refl
joined_cons false c cs = refl

pub joined_nil : (first : Bool) → joined first [] ≡ []
unfolding join join_rest
joined_nil true = refl
joined_nil false = refl

-- The loop writes the components with a slash between them, or fails when they do not fit.
add_texts-Extends :
    (first : Bool) (cs : List (List ℕ)) (t : PathText)
    → IsText t
    → Extends t (joined first cs) (add_texts first cs t)
unfolding add_texts
add_texts-Extends first [] t v = rw joined_nil (
  λ h. (t, refl, sym (append-nil (text_of t)), v, omega arith),
  λ h. absurd (omega (arith, v.within)),
)
add_texts-Extends first (c ∷ cs) t v = rw (← joined_cons first c cs) (
    Extends-bind t (separator first) (c ++ join_rest cs) (add_separator first t) _
      (add_separator-Extends first t v)
      (λ t' v'.
        Extends-bind t' c (join_rest cs) (add_text c t') (add_texts false cs)
          (add_text-Extends c t' v') (λ t'' v''. add_texts-Extends false cs t'' v'')))

-- `canonical_path` stores the canonical text of the components when that has at most 256 bytes,
-- and fails with MountPathTooLong when it has more.
pub canonical_path_lem :
    (a : AbsolutePath)
    → (length (render (components a)) ≤ 256
        → (t : PathText) × (canonical_path a ≡ ok t)
          × (text_of t ≡ render (components a))
          × IsText t
          × (t.path_length ≡ length (render (components a))))
      × (256 < length (render (components a)) → canonical_path a ≡ err mount_path_too_long)
unfolding canonical_path
canonical_path_lem a = (
  λ h. let (t, e, text, v, n) = written.0 (omega arith) in (t, e, text, v, omega (arith, n)),
  λ h. written.1 (omega arith),
)
  where
    start : PathText
    start = record { bytes = set (replicate 256 0) 0 slash; path_length = 1 }

    written : Extends start (join (components a)) (add_texts true (components a) start)
    written =
        add_texts-Extends true (components a) start (record { array = refl; within = omega arith })
