-- ===== src/Vfs/Mount.antt =====
-- crates/vfs/src/lib.rs: `MountTable`. A path is stored as its canonical text in an array of 256
-- bytes with a length; the table's array has a list of optional entries.
pub mod Canonical
pub mod Matching
pub mod Table
pub mod Growth
pub mod Mounting
pub mod Resolving
use slopos.Base.{
  ℕ, suc, ◌+◌, ◌-◌, ◌≡◌, Bool, true, false, not, ◌||◌, ◌&&◌, Option, none, some, List, [], ◌∷◌,
  Result, ok, err, ◌>>=◌, ◌>>◌, if◌then◌else◌, ltb, leb, ◌==◌, take, drop, set, get_elem?,
  replicate, length, bytes_eq, ok_or, ensure, checked_add, u64_mod, any, filter, position,
}
use slopos.Vfs.{
  VfsError, mount_path_too_long, mount_table_full, duplicate_mount, mount_not_found,
  max_mount_path_bytes,
}
use slopos.Vfs.Path.{AbsolutePath, components, slash}

-- The bytes of `output[..length]` are the text.
pub record PathText : Type 0 where
  pub bytes : List ℕ
  pub path_length : ℕ

pub record MountEntry : Type 0 where
  pub text : PathText
  pub component_count : ℕ
  pub filesystem_id : ℕ

pub record MountTable : Type 0 where
  pub entries : List (Option MountEntry)
  pub count : ℕ

pub record MountResolution : Type 0 where
  pub filesystem_id : ℕ
  pub matched_components : ℕ

unfoldable pub new : ℕ → MountTable
new n = record { entries = replicate n none; count = 0 }

-- `output[start..end].copy_from_slice(bytes)`
unfoldable pub write_at : List ℕ → ℕ → List ℕ → List ℕ
write_at output start [] = output
write_at output start (b ∷ bs) = write_at (set output start b) (start + 1) bs

-- `if index != 0 { … output[length] = b'/'; length += 1; }`
unfoldable pub add_separator : Bool → PathText → Result VfsError PathText
add_separator true t = ok t
add_separator false t = do
  ensure (not (t.path_length == length t.bytes)) mount_path_too_long
  ok (record { bytes = set t.bytes t.path_length slash; path_length = t.path_length + 1 })

unfoldable pub add_text : List ℕ → PathText → Result VfsError PathText
unfolding write_at
add_text c t = do
  end ← ok_or (checked_add u64_mod t.path_length (length c)) mount_path_too_long
  ensure (leb end (length t.bytes)) mount_path_too_long
  ok (record { bytes = write_at t.bytes t.path_length c; path_length = end })

-- The loop of `canonical_path`; the flag says that the index is 0.
unfoldable pub add_texts : Bool → List (List ℕ) → PathText → Result VfsError PathText
add_texts first [] t = ok t
add_texts first (c ∷ cs) t = do t ← add_separator first t; t ← add_text c t; add_texts false cs t

unfoldable pub canonical_path : AbsolutePath → Result VfsError PathText
unfolding add_texts add_text add_separator components
canonical_path path =
    add_texts true (components path)
      (record { bytes = set (replicate max_mount_path_bytes 0) 0 slash; path_length = 1 })

abbrev pub is_byte : Option ℕ → ℕ → Bool
is_byte none b = false
is_byte (some a) b = a == b

-- `bytes[start..end]`
abbrev pub slice : List ℕ → ℕ → ℕ → List ℕ
slice bytes start end = take (end - start) (drop start bytes)

-- The loop of `mount_matches` at a cursor.
unfoldable pub match_components : PathText → Bool → List (List ℕ) → ℕ → Bool
match_components t first [] cursor = cursor == t.path_length
match_components t first (c ∷ cs) cursor =
    let after = if first then cursor else cursor + 1 in
    let end = after + length c in
    let rest = match_components t false cs end in
    if not first && not (is_byte (get_elem? t.bytes cursor) slash)
    then false
    else if ltb t.path_length end || not (bytes_eq (slice t.bytes after end) c)
    then false
    else rest

unfoldable pub mount_matches : MountEntry → AbsolutePath → Bool
unfolding match_components components
mount_matches e path =
    if e.component_count == 0
    then (e.text.path_length == 1) && is_byte (get_elem? e.text.bytes 0) slash
    else match_components e.text true (take e.component_count (components path)) 1

-- `entries.iter().flatten()`
unfoldable pub flatten : List (Option MountEntry) → List MountEntry
flatten [] = []
flatten (none ∷ es) = flatten es
flatten (some e ∷ es) = e ∷ flatten es

abbrev pub is_none : Option MountEntry → Bool
is_none none = true
is_none (some e) = false

-- `entry.path[..entry.path_length] == canonical[..path_length]`
abbrev pub same_text : PathText → PathText → Bool
same_text a b = bytes_eq (take a.path_length a.bytes) (take b.path_length b.bytes)

-- The checks of `mount`: the place of the first free entry, and the text to store there.
unfoldable pub mount_slot : MountTable → AbsolutePath → Result VfsError (ℕ × PathText)
unfolding canonical_path flatten
mount_slot t path = do
  text ← canonical_path path
  ensure (not (any (λ e. same_text e.text text) (flatten t.entries))) duplicate_mount
  index ← ok_or (position is_none t.entries) mount_table_full
  ok (index, text)

abbrev pub entry_of : AbsolutePath → ℕ → PathText → MountEntry
entry_of path filesystem_id text = record {
  text = text;
  component_count = path.component_count;
  filesystem_id = filesystem_id;
}

unfoldable pub place_entry :
    MountTable
    → AbsolutePath
    → ℕ
    → Result VfsError (ℕ × PathText)
    → Result VfsError (Unit {0}) × MountTable
place_entry t path filesystem_id (ok (index, text)) = (
  ok tt,
  record {
    entries = set t.entries index (some (entry_of path filesystem_id text));
    count = t.count + 1;
  },
)
place_entry t path filesystem_id (err e) = (err e, t)

unfoldable pub mount : MountTable → AbsolutePath → ℕ → Result VfsError (Unit {0}) × MountTable
unfolding mount_slot place_entry
mount t path filesystem_id = place_entry t path filesystem_id (mount_slot t path)

-- `max_by_key` on the component count: of several maxima the last.
unfoldable pub max_from : MountEntry → List MountEntry → MountEntry
max_from best [] = best
max_from best (e ∷ es) =
    max_from (if leb best.component_count e.component_count then e else best) es

unfoldable pub max_by_count : List MountEntry → Option MountEntry
unfolding max_from
max_by_count [] = none
max_by_count (e ∷ es) = some (max_from e es)

unfoldable pub candidates : MountTable → AbsolutePath → List MountEntry
unfolding flatten mount_matches
candidates t path =
    filter (λ e. mount_matches e path)
      (filter (λ e. leb e.component_count path.component_count) (flatten t.entries))

unfoldable pub resolve : MountTable → AbsolutePath → Result VfsError MountResolution
unfolding candidates max_by_count
resolve t path = do
  e ← ok_or (max_by_count (candidates t path)) mount_not_found
  ok (record { filesystem_id = e.filesystem_id; matched_components = e.component_count })
