-- ===== src/Tests/Mounts.antt =====
-- The mount table of crates/vfs/src/lib.rs.
use slopos.Base.{
  ℕ, position, ◌<◌, ◌≤◌, ◌≡◌, refl, List, [], ◌∷◌, ok, err, arith, set, replicate, length,
}
use slopos.Vfs.{mount_path_too_long, duplicate_mount}
use slopos.Vfs.Path.{AbsolutePath, root, slash, components, parse}
use slopos.Vfs.Path.Names.{IsNormal, root-IsNormal, parse-IsNormal}
use slopos.Vfs.Path.Render.{join, render}
use slopos.Vfs.Mount.{PathText, MountEntry, MountTable, new, canonical_path, mount, resolve}
use slopos.Vfs.Mount.Canonical.{text_of, IsText, canonical_path_lem}
use slopos.Vfs.Mount.Matching.{Stores}
use slopos.Vfs.Mount.Table.{IsValid, new-IsValid}
use slopos.Vfs.Mount.Mounting.{MountOutcome, mount-outcome, mount-IsValid}
use slopos.Vfs.Mount.Resolving.{Resolves, resolve-Resolves}

abbrev mnt : List ℕ
mnt = b'm' ∷ b'n' ∷ b't' ∷ []

abbrev mnt_path : AbsolutePath
mnt_path = record { components = set root.components 0 mnt; component_count = 1 }

mnt_path-IsNormal : IsNormal mnt_path
unfolding parse
mnt_path-IsNormal = parse-IsNormal (slash ∷ mnt) mnt_path refl

-- The root on file system 1 and /mnt on 2.
abbrev mounts : MountTable
mounts = (mount (mount (new 3) root 1).1 mnt_path 2).1

mounts-IsValid : IsValid mounts
mounts-IsValid =
    mount-IsValid (mount (new 3) root 1).1 mnt_path 2
      (mount-IsValid (new 3) root 1 (new-IsValid 3) root-IsNormal) mnt_path-IsNormal

resolve_mnt : resolve mounts mnt_path ≡ ok (record { filesystem_id = 2; matched_components = 1 })
unfolding resolve mount new position
resolve_mnt = refl

resolve-root : resolve mounts root ≡ ok (record { filesystem_id = 1; matched_components = 0 })
unfolding resolve mount new position
resolve-root = refl

mount_again : (mount mounts mnt_path 4).0 ≡ err duplicate_mount
unfolding mount new position
mount_again = refl

resolve-Resolves_example : Resolves mounts mnt_path (resolve mounts mnt_path)
resolve-Resolves_example = resolve-Resolves mounts mnt_path mounts-IsValid mnt_path-IsNormal

mount-outcome_example : MountOutcome mounts (components mnt_path) 4 (mount mounts mnt_path 4)
mount-outcome_example = mount-outcome mounts mnt_path 4 mounts-IsValid mnt_path-IsNormal

canonical_path_lem_example :
    (length (render (components mnt_path)) ≤ 256
      → (t : PathText) × (canonical_path mnt_path ≡ ok t)
        × (text_of t ≡ render (components mnt_path))
        × IsText t
        × (t.path_length ≡ length (render (components mnt_path))))
    × (256 < length (render (components mnt_path))
        → canonical_path mnt_path ≡ err mount_path_too_long)
canonical_path_lem_example = canonical_path_lem mnt_path

abbrev root_entry : MountEntry
root_entry = record {
  text = record { bytes = set (replicate 256 0) 0 slash; path_length = 1 };
  component_count = 0;
  filesystem_id = 1;
}

root_entry-Stores : Stores root_entry []
unfolding join
root_entry-Stores = record {
  text = refl;
  is_text = record { array = refl; within = omega arith };
  text_length = refl;
  counted = refl;
  names = tt;
}
