-- ===== src/Volume/Path/Resolve.antt =====
-- `lookupPath`: what becomes of every path.
use wamount.Base.{
  ℕ, ◌≡◌, Bool, true, false, Option, none, some, List, [], ◌∷◌, Result, done, ◌>>=◌, ◌&&◌, ◌==◌,
  if◌then◌else◌,
}
use wamount.Blocks.{Blocks}
use wamount.Btree.{Btree}
use wamount.Volume.{Volume, FileInfo, get_root_inode}
use wamount.Volume.Inode.{get_file_info}
use wamount.Volume.Directory.{read_directory}
use wamount.Volume.Directory.Listing.{read_directory-nil}
use wamount.Volume.Path.{slash, find_name, walk, is_root, components, lookup_path}

walk_nothing :
    (entries_of : ℕ → Result (List FileInfo)) (inode : ℕ) (info : FileInfo) (comp : List ℕ)
    (comps : List (List ℕ))
    → entries_of inode ≡ done []
    → walk entries_of inode info (comp ∷ comps) ≡ done (false, info)
unfolding walk find_name
walk_nothing entries_of inode info comp comps empty = rw empty

-- On a volume with a tree, a path other than the root's that has a component is not found, and the
-- caller's struct is left as it was.
pub lookup_path-missing :
    (v : Volume) (t : Btree) (container : Option Blocks) (path comp : List ℕ)
    (comps : List (List ℕ)) (info : FileInfo)
    → v.root_tree ≡ some t
    → is_root path ≡ false
    → components path ≡ comp ∷ comps
    → lookup_path v container path info ≡ done (false, info)
unfolding lookup_path
lookup_path-missing v t container path comp comps info tree below names =
    rw (below, names)
      (walk_nothing (read_directory v container) get_root_inode info comp comps
        (read_directory-nil v t container get_root_inode tree))

-- A path that is slashes and nothing else.
unfoldable pub is_slashes : List ℕ → Bool
is_slashes [] = true
is_slashes (c ∷ path) = c == slash && is_slashes path

-- What becomes of a path, without a look at its components: the root is asked for, and any other path
-- is found when it is slashes and nothing else; nothing is written then.
unfoldable pub lookup_by_slashes :
    Volume → Option Blocks → List ℕ → FileInfo → Result (Bool × FileInfo)
unfolding is_slashes
lookup_by_slashes v container path info =
    if is_root path
    then (do
      found ← get_file_info v container get_root_inode info
      elim found [ none ↦ done (false, info) | some root ↦ done (true, root) ])
    else done (is_slashes path, info)
